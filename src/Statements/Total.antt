-- ===== src/Statements/Total.antt =====
-- Parse returns on every text, at the end of the text.
use standalone_policy_engine.Base.{
  ℕ, zero, suc, ◌<◌, ◌≡◌, refl, true, false, inl, inr, ◌⊎◌, List, [], ◌∷◌, Bool-cases, Option-cases,
  arith,
}
use standalone_policy_engine.Base.Text.{Text}
use standalone_policy_engine.Platform.{Platform}
use standalone_policy_engine.Ast.{Effect, PolicyNode}
use standalone_policy_engine.Tokens.{
  TokenType, tok_eof, tok_action, tok_resource, tok_principal, tok_lparen, tok_rparen,
  tok_semicolon,
}
use standalone_policy_engine.Lexer.{new_lexer}
use standalone_policy_engine.Parser.{
  Parser, Parsed, done, failed, advance, expect_peek, cur_token_is, peek_token_is, new_parser,
  kind_eq, add_error,
}
use standalone_policy_engine.Parser.Weight.{
  pending, weight, weight-advance, weight-new_parser, Within, finished, gave_up,
}
use standalone_policy_engine.Statements.{
  policy_of, start_effect, parse_body, parse_policy, parse_loop, parse,
}
use standalone_policy_engine.Statements.Steady.{
  >>=-IsSteady, pure-IsSteady, next-IsSteady, expect-IsSteady, parse_scope-IsSteady,
  parse_next_scope-IsSteady, parse_condition-IsSteady, parse_obligations-IsSteady,
}

-- The next call is made with less to read.
abbrev IsAhead : Platform → ℕ → Parsed PolicyNode → Type 0
IsAhead lib n o =
    ((policy : PolicyNode) × (q : Parser) × (o ≡ done policy q) × (weight (advance lib q) < n))
    ⊎ ((q : Parser) × (o ≡ failed q) × (weight (advance lib q) < n))

Within-IsAhead :
    (lib : Platform) {n m : ℕ} {o : Parsed PolicyNode} → Within n o → n < m → IsAhead lib m o
Within-IsAhead lib (finished {p = p} h) l =
    inl (_, p, refl, omega (arith, h, l, weight-advance lib p))
Within-IsAhead lib (gave_up {p = p} h) l = inr (p, refl, omega (arith, h, l, weight-advance lib p))

parse_body-IsAhead :
    (lib : Platform) (n : ℕ) (effect : Effect) (p : Parser)
    → weight p < n
    → pending p.cur_token.kind ≡ 1
    → IsAhead lib (weight p) (parse_body lib n effect p)
unfolding parse_body expect_peek
parse_body-IsAhead lib n effect p h d =
    let w = weight-advance lib p in
    elim (Bool-cases (peek_token_is tok_lparen p)) [
      | inl e ↦ rw e (
          Within-IsAhead lib
            ((>>=-IsSteady (next-IsSteady lib) λ _.
                >>=-IsSteady (parse_scope-IsSteady lib tok_principal) λ who.
                  >>=-IsSteady (parse_next_scope-IsSteady lib tok_action) λ action.
                    >>=-IsSteady (parse_next_scope-IsSteady lib tok_resource) λ object.
                      >>=-IsSteady (expect-IsSteady lib tok_rparen) λ _.
                        >>=-IsSteady (parse_condition-IsSteady lib) λ condition.
                          >>=-IsSteady (parse_obligations-IsSteady lib n) λ obligations.
                            >>=-IsSteady (expect-IsSteady lib tok_semicolon) λ _.
                              pure-IsSteady
                                (policy_of effect who action object condition obligations))
              (advance lib p) (omega (arith, h, w, d)))
            (omega (arith, h, w, d)))
      | inr e ↦
          rw e (inr (_, refl, omega (arith, d, weight-advance lib (add_error p.peek_token.pos p))))
    ]

parse_policy-IsAhead :
    (lib : Platform) (n : ℕ) (p : Parser)
    → weight p < n
    → pending p.cur_token.kind ≡ 1
    → IsAhead lib (weight p) (parse_policy lib n p)
unfolding parse_policy
parse_policy-IsAhead lib n p h d = elim (Option-cases (start_effect p.cur_token.kind)) [
  | inl e ↦
      rw (parse_policy, e)
        (inr (_, refl, omega (arith, d, weight-advance lib (add_error p.cur_token.pos p))))
  | inr (effect, e) ↦ rw (parse_policy, e) (parse_body-IsAhead lib n effect p h d)
]

not_eof-pending : (k : TokenType) → kind_eq k tok_eof ≡ false → pending k ≡ 1
not_eof-pending tok_eof e = cc
not_eof-pending _ e = refl

-- A list of policies, and the parser at the end of the text.
abbrev ReadsToEnd : Parsed (List PolicyNode) → Type 0
ReadsToEnd o =
    (policies : List PolicyNode) × (q : Parser) × (o ≡ done policies q)
    × (cur_token_is tok_eof q ≡ true)

parse_loop-ReadsToEnd :
    (lib : Platform) (fuel n : ℕ) (p : Parser)
    → weight p < fuel
    → weight p < n
    → ReadsToEnd (parse_loop lib fuel n p)
unfolding parse_loop
parse_loop-ReadsToEnd lib fuel zero p h l = absurd (omega (arith, l))
parse_loop-ReadsToEnd lib fuel (suc n) p h l = elim (Bool-cases (cur_token_is tok_eof p)) [
  | inl e ↦ rw (parse_loop, e) ([], p, refl, e)
  | inr e ↦ elim (parse_policy-IsAhead lib fuel p h (not_eof-pending p.cur_token.kind e)) [
    | inl (policy, q, f, w) ↦
        let (more, r, g, end) =
          parse_loop-ReadsToEnd lib fuel n (advance lib q) (omega (arith, h, w))
            (omega (arith, l, w)) in
        rw (parse_loop, e, f, g) (policy ∷ more, r, refl, end)
    | inr (q, f, w) ↦
        let rest =
          parse_loop-ReadsToEnd lib fuel n (advance lib q) (omega (arith, h, w))
            (omega (arith, l, w)) in
        rw (parse_loop, e, f) rest
  ]
]

-- NewParser and Parse return on every text, whatever the scanner's letters are: they end with a
-- list of policies and with the current token at the end of the text. The fuel of the model,
-- one more than the number of runes, is enough for parseExpression and for the two loops.
pub parse_total :
    (lib : Platform) (text : Text)
    → (policies : List PolicyNode) × (q : Parser) × (parse lib text ≡ done policies q)
      × (cur_token_is tok_eof q ≡ true)
unfolding parse
parse_total lib text =
    let w = weight-new_parser lib text in
    parse_loop-ReadsToEnd lib _ _ (new_parser lib (new_lexer text)) (omega (arith, w))
      (omega (arith, w))
