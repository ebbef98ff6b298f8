-- ===== src/Statements/Steady.antt =====
-- The methods under Parse return where less is left than their fuel, and give nothing back.
use standalone_policy_engine.Base.{
  ℕ, zero, suc, ◌<◌, ◌≡◌, refl, true, inl, inr, ◌∷◌, Bool-cases, Option-cases, arith,
}
use standalone_policy_engine.Platform.{Platform}
use standalone_policy_engine.Ast.{ScopeOp, Node, absent, ObligationNode}
use standalone_policy_engine.Tokens.{
  TokenType, tok_eof, tok_any, tok_colon, tok_comma, tok_lbrace, tok_rbrace, tok_string,
  tok_obligation, tok_ident, Position,
}
use standalone_policy_engine.Parser.{
  Parser, P, ◌>>=◌, pure, literal, next, advance, expect_peek, cur_token_is, peek_token_is, kind_eq,
}
use standalone_policy_engine.Parser.Weight.{
  pending, weight, weight-advance, Within, finished, gave_up, bind-Within, Within-le,
  expect_peek-Within,
}
use standalone_policy_engine.Expressions.{lowest}
use standalone_policy_engine.Expressions.Fuel.{parse_expression-Within}
use standalone_policy_engine.Statements.{
  fail_at, scope_op, is_entity_type, is_entity_id, starts_condition, present, parse_entity_id,
  parse_scope_value, parse_scope, parse_message, parse_obligation, parse_obligations, parse_braces,
  parse_condition, parse_next_scope,
}

-- A method returns where less than `n` is left, and gives nothing back.
abbrev pub IsSteady {ℓ} : {A : Type ℓ} → ℕ → P A → Type ℓ
IsSteady n m = (p : Parser) → weight p < n → Within (weight p) (m p)

pub >>=-IsSteady {ℓ κ} :
    {A : Type ℓ} {B : Type κ} {n : ℕ} {m : P A} {f : A → P B}
    → IsSteady n m
    → ((a : A) → IsSteady n (f a))
    → IsSteady n (m >>= f)
>>=-IsSteady s t p h =
    bind-Within (s p h) (omega arith) λ a q i. Within-le (t a q (omega (arith, h, i))) i

pub pure-IsSteady {ℓ} : {A : Type ℓ} {n : ℕ} (a : A) → IsSteady n (pure a)
pure-IsSteady a p h = finished (omega arith)

literal-IsSteady : {n : ℕ} → IsSteady n literal
literal-IsSteady p h = finished (omega arith)

fail_at-IsSteady {ℓ} : {A : Type ℓ} {n : ℕ} (pos : Position) → IsSteady {A = A} n (fail_at pos)
fail_at-IsSteady pos p h = gave_up (omega arith)

-- A method after a move to the next token.
after-advance {ℓ} :
    (lib : Platform) {A : Type ℓ} {n : ℕ} {m : P A}
    → IsSteady n m
    → IsSteady n (λ p. m (advance lib p))
after-advance lib s p h =
    let w = weight-advance lib p in
    Within-le (s (advance lib p) (omega (arith, w, h))) (omega (arith, w))

module _ (lib : Platform) {n : ℕ} where
  pub next-IsSteady : IsSteady n (next lib)
  next-IsSteady p h = finished (omega (arith, weight-advance lib p))

  pub expect-IsSteady : (k : TokenType) → IsSteady n (expect_peek lib k)
  expect-IsSteady k p h = expect_peek-Within lib k p

  parse_entity_id-IsSteady : IsSteady n (parse_entity_id lib)
  unfolding parse_entity_id
  parse_entity_id-IsSteady p h = elim (Bool-cases (is_entity_id p.peek_token.kind)) [
    | inl e ↦ rw (parse_entity_id, e) (after-advance lib {n = n} literal-IsSteady p h)
    | inr e ↦ rw (parse_entity_id, e) (gave_up (omega arith))
  ]

  parse_scope_value-IsSteady : (op : ScopeOp) → IsSteady n (parse_scope_value lib op)
  unfolding parse_scope_value
  parse_scope_value-IsSteady op p h = elim (Bool-cases (cur_token_is tok_any p)) [
    | inl e ↦ rw (parse_scope_value, e) (finished (omega arith))
    | inr e ↦
        rw (parse_scope_value, e)
          (elim (Bool-cases (is_entity_type p.cur_token.kind)) [
            | inl f ↦ rw f (
                >>=-IsSteady (expect-IsSteady tok_colon)
                  (λ _. >>=-IsSteady parse_entity_id-IsSteady λ id. pure-IsSteady _) p h)
            | inr f ↦ rw f (gave_up (omega arith))
          ])
  ]

  pub parse_scope-IsSteady : (keyword : TokenType) → IsSteady n (parse_scope lib keyword)
  unfolding parse_scope
  parse_scope-IsSteady keyword p h = elim (Bool-cases (cur_token_is keyword p)) [
    | inr e ↦ rw (parse_scope, e) (gave_up (omega arith))
    | inl e ↦
        rw (parse_scope, e)
          (elim (Option-cases (scope_op p.peek_token.kind)) [
            | inl f ↦ rw f (gave_up (omega arith))
            | inr (op, f) ↦ rw f (
                after-advance lib (>>=-IsSteady next-IsSteady λ _. parse_scope_value-IsSteady op) p
                  h)
          ])
  ]

  parse_message-IsSteady : IsSteady n (parse_message lib)
  unfolding parse_message
  parse_message-IsSteady p h = elim (Bool-cases (peek_token_is tok_string p)) [
    | inl e ↦ rw (parse_message, e) (after-advance lib {n = n} literal-IsSteady p h)
    | inr e ↦ rw (parse_message, e) (finished (omega arith))
  ]

  parse_obligation-IsSteady : IsSteady n (parse_obligation lib)
  unfolding parse_obligation
  parse_obligation-IsSteady = >>=-IsSteady (expect-IsSteady tok_ident) λ _.
      >>=-IsSteady literal-IsSteady
        λ kind. >>=-IsSteady parse_message-IsSteady λ message. pure-IsSteady _

  pub parse_next_scope-IsSteady : (keyword : TokenType) → IsSteady n (parse_next_scope lib keyword)
  unfolding parse_next_scope
  parse_next_scope-IsSteady keyword =
      >>=-IsSteady (expect-IsSteady tok_comma)
        λ _. >>=-IsSteady next-IsSteady λ _. parse_scope-IsSteady keyword

  present-IsSteady : (e : Node) → IsSteady n (present e)
  present-IsSteady absent p h = gave_up (omega arith)
  present-IsSteady e p h = finished (omega arith)

  parse_braces-IsSteady : IsSteady n (parse_braces lib n)
  unfolding parse_braces
  parse_braces-IsSteady = >>=-IsSteady (expect-IsSteady tok_lbrace) λ _.
      >>=-IsSteady next-IsSteady λ _. >>=-IsSteady (parse_expression-Within lib n lowest) λ e.
        >>=-IsSteady (present-IsSteady e)
          λ f. >>=-IsSteady (expect-IsSteady tok_rbrace) λ _. pure-IsSteady f

  pub parse_condition-IsSteady : IsSteady n (parse_condition lib n)
  unfolding parse_condition
  parse_condition-IsSteady p h = elim (Bool-cases (starts_condition p.peek_token.kind)) [
    | inl e ↦
        let w = weight-advance lib p in
        rw (parse_condition, e)
          (bind-Within (parse_braces-IsSteady (advance lib p) (omega (arith, w, h)))
            (omega (arith, w)) λ e q i. finished (omega (arith, i, w)))
    | inr e ↦ rw (parse_condition, e) (finished (omega arith))
  ]

obligation-pending : (k : TokenType) → kind_eq k tok_obligation ≡ true → pending k ≡ 1
obligation-pending tok_eof e = cc
obligation-pending _ e = refl

-- An obligation that is read takes a token away, for what comes behind it.
parse_obligation-then {ℓ} :
    (lib : Platform) {B : Type ℓ} {n : ℕ} {f : ObligationNode → P B} (p : Parser)
    → pending p.peek_token.kind ≡ 1
    → weight p < suc n
    → ((o : ObligationNode) → IsSteady n (f o))
    → Within (weight p) ((parse_obligation lib >>= f) (advance lib p))
unfolding parse_obligation expect_peek advance
parse_obligation-then lib {n = n} p d h s =
    let q = advance lib p in
    let w = weight-advance lib p in
    let v = weight-advance lib q in
    elim (Bool-cases (peek_token_is tok_ident q)) [
      | inl e ↦ rw e (
          Within-le
            (>>=-IsSteady
              (>>=-IsSteady literal-IsSteady λ kind.
                >>=-IsSteady (parse_message-IsSteady lib)
                  λ message. pure-IsSteady (record { kind = kind; message = message }))
              s (advance lib q) (omega (arith, w, v, d, h)))
            (omega (arith, w, v)))
      | inr e ↦ rw e (gave_up (omega (arith, w)))
    ]

pub parse_obligations-IsSteady : (lib : Platform) (n : ℕ) → IsSteady n (parse_obligations lib n)
unfolding parse_obligations
parse_obligations-IsSteady lib zero p h = absurd (omega (arith, h))
parse_obligations-IsSteady lib (suc n) p h = elim (Bool-cases (peek_token_is tok_obligation p)) [
  | inl e ↦
      rw (parse_obligations, e)
        (parse_obligation-then lib p (obligation-pending p.peek_token.kind e) h
          λ o. >>=-IsSteady (parse_obligations-IsSteady lib n) λ os. pure-IsSteady (o ∷ os))
  | inr e ↦ rw (parse_obligations, e) (finished (omega arith))
]
