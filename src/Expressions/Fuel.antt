-- ===== src/Expressions/Fuel.antt =====
-- The fuel of parseExpression: how much of it is enough.
use standalone_policy_engine.Base.{
  ℕ, zero, suc, ◌-◌, ◌<◌, ◌≤◌, ◌≡◌, refl, some, inl, inr, Bool-cases, Option-cases, arith,
}
use standalone_policy_engine.Platform.{Platform, parse_int}
use standalone_policy_engine.Ast.{BinaryOp, Node}
use standalone_policy_engine.Tokens.{TokenType, tok_eof, tok_dot, tok_ident, tok_rparen}
use standalone_policy_engine.Parser.{Parser, Parsed, P, advance}
use standalone_policy_engine.Parser.Weight.{
  pending, weight, weight-advance, Within, finished, gave_up, bind-Within, Within-le,
  expect_peek-Within,
}
use standalone_policy_engine.Expressions.{
  lowest, prefix_level, precedence, infix_op, Prefix, number, text, address, boolean, negation,
  group, name, prefix_fn, scope_of_name, or_absent, parse_number, parse_ip, parse_variable,
  parse_negation, parse_group, parse_prefix, parse_infix, keeps_on, infix_loop, parse_expression,
}

-- Expressions are parsed where less than `n` is left.
abbrev pub IsSound : ℕ → (ℕ → P Node) → Type 0
IsSound n expression =
    (level : ℕ) (p : Parser) → weight p < n → Within (weight p) (expression level p)

infix_op-pending : (k : TokenType) {op : BinaryOp} → infix_op k ≡ some op → pending k ≡ 1
infix_op-pending tok_eof e = cc
infix_op-pending _ e = refl

prefix_fn-pending : (k : TokenType) {fn : Prefix} → prefix_fn k ≡ some fn → pending k ≡ 1
prefix_fn-pending tok_eof e = cc
prefix_fn-pending _ e = refl

or_absent-Within : {n : ℕ} {o : Parsed Node} → Within n o → Within n (or_absent o)
or_absent-Within (finished h) = finished h
or_absent-Within (gave_up h) = finished h

parse_number-Within : (lib : Platform) (p : Parser) → Within (weight p) (parse_number lib p)
unfolding parse_number
parse_number-Within lib p = elim (Option-cases (parse_int p.cur_token.literal)) [
  | inl e ↦ rw (parse_number, e) (finished (omega arith))
  | inr (n, e) ↦ rw (parse_number, e) (finished (omega arith))
]

parse_ip-Within : (lib : Platform) (p : Parser) → Within (weight p) (parse_ip lib p)
unfolding parse_ip
parse_ip-Within lib p = elim (Option-cases (lib.parse_ip p.cur_token.literal)) [
  | inr (a, e) ↦ rw (parse_ip, e) (finished (omega arith))
  | inl e ↦
      rw (parse_ip, e)
        (elim (Option-cases (lib.parse_cidr p.cur_token.literal)) [
          | inl f ↦ rw f (finished (omega arith))
          | inr (n, f) ↦ rw f (finished (omega arith))
        ])
]

parse_variable-Within : (lib : Platform) (p : Parser) → Within (weight p) (parse_variable lib p)
unfolding parse_variable
parse_variable-Within lib p = elim (Option-cases (scope_of_name p.cur_token.literal)) [
  | inl e ↦ rw (parse_variable, e) (finished (omega arith))
  | inr (scope, e) ↦
      rw (parse_variable, e)
        (or_absent-Within (
          bind-Within (expect_peek-Within lib tok_dot p) (omega arith) λ _ q h.
            Within-le
              (bind-Within (expect_peek-Within lib tok_ident q) (omega arith) λ _ r i. finished i)
              h))
]

parse_negation-Within :
    (lib : Platform) (expression : ℕ → P Node) (p : Parser)
    → pending p.cur_token.kind ≡ 1
    → IsSound (weight p) expression
    → Within (weight p) (parse_negation lib expression p)
unfolding parse_negation
parse_negation-Within lib expression p e sound =
    bind-Within (sound prefix_level (advance lib p) (omega (arith, e, weight-advance lib p)))
      (omega (arith, weight-advance lib p))
      λ _ q h. finished (omega (arith, h, weight-advance lib p))

parse_group-Within :
    (lib : Platform) (expression : ℕ → P Node) (p : Parser)
    → pending p.cur_token.kind ≡ 1
    → IsSound (weight p) expression
    → Within (weight p) (parse_group lib expression p)
unfolding parse_group
parse_group-Within lib expression p e sound = or_absent-Within (
    bind-Within (sound lowest (advance lib p) (omega (arith, e, weight-advance lib p)))
      (omega (arith, weight-advance lib p))
      λ _ q h.
        bind-Within (expect_peek-Within lib tok_rparen q) (omega (arith, h, weight-advance lib p))
          λ _ r i. finished (omega (arith, h, i, weight-advance lib p)))

parse_prefix-Within :
    (lib : Platform) (expression : ℕ → P Node) (fn : Prefix) (p : Parser)
    → pending p.cur_token.kind ≡ 1
    → IsSound (weight p) expression
    → Within (weight p) (parse_prefix lib expression fn p)
unfolding parse_prefix
parse_prefix-Within lib expression number p e sound = parse_number-Within lib p
parse_prefix-Within lib expression text p e sound = finished (omega arith)
parse_prefix-Within lib expression address p e sound = parse_ip-Within lib p
parse_prefix-Within lib expression boolean p e sound = finished (omega arith)
parse_prefix-Within lib expression negation p e sound =
    parse_negation-Within lib expression p e sound
parse_prefix-Within lib expression group p e sound = parse_group-Within lib expression p e sound
parse_prefix-Within lib expression name p e sound = parse_variable-Within lib p

-- An operator and its right operand take at least the operator away.
parse_infix-Within :
    (lib : Platform) (expression : ℕ → P Node) (left : Node) (op : BinaryOp) (p : Parser) (n k : ℕ)
    → infix_op p.cur_token.kind ≡ some op
    → weight p ≤ suc n
    → n < k
    → IsSound k expression
    → Within n (parse_infix lib expression left p)
unfolding parse_infix
parse_infix-Within lib expression left op p n k e h i sound =
    let d = infix_op-pending p.cur_token.kind e in
    rw (parse_infix, e)
      (bind-Within
        (sound (precedence p.cur_token.kind) (advance lib p)
          (omega (arith, d, h, i, weight-advance lib p)))
        (omega (arith, d, h, weight-advance lib p))
        λ _ q j. finished (omega (arith, j, d, h, weight-advance lib p)))

infix_loop-Within :
    (lib : Platform) (n : ℕ) (expression : ℕ → P Node) (level : ℕ) (left : Node) (p : Parser)
    → weight p < n
    → IsSound (weight p) expression
    → Within (weight p) (infix_loop lib n expression level left p)
unfolding infix_loop
infix_loop-Within lib zero expression level left p h sound = absurd (omega (arith, h))
infix_loop-Within lib (suc n) expression level left p h sound =
    elim (Bool-cases (keeps_on level p)) [
      | inl e ↦
          rw (infix_loop, e)
            (elim (Option-cases (infix_op p.peek_token.kind)) [
              | inl f ↦ rw f (finished (omega arith))
              | inr (op, f) ↦
                  let d : pending p.peek_token.kind ≡ 1 = infix_op-pending p.peek_token.kind f in
                  let w = weight-advance lib p in
                  rw f (
                    bind-Within
                      (parse_infix-Within lib expression left op (advance lib p) (weight p - 1)
                        (weight p) (unfold advance in f) (omega (arith, w, d)) (omega (arith, d))
                        sound)
                      (omega arith)
                      λ e q i.
                        Within-le
                          (infix_loop-Within lib n expression level e q (omega (arith, h, i, d))
                            λ l r m. sound l r (omega (arith, m, i)))
                          (omega (arith, i)))
            ])
      | inr e ↦ rw (infix_loop, e) (finished (omega arith))
    ]

-- parseExpression returns where its fuel is more than what is left to read, and gives nothing
-- back.
pub parse_expression-Within : (lib : Platform) (fuel : ℕ) → IsSound fuel (parse_expression lib fuel)
unfolding parse_expression
parse_expression-Within lib zero level p h = absurd (omega (arith, h))
parse_expression-Within lib (suc fuel) level p h =
    elim (Option-cases (prefix_fn p.cur_token.kind)) [
      | inl e ↦ rw (parse_expression, e) (finished (omega arith))
      | inr (fn, e) ↦
          let sound : IsSound (weight p) (parse_expression lib fuel) =
            λ l r m. parse_expression-Within lib fuel l r (omega (arith, m, h)) in
          rw (parse_expression, e)
            (bind-Within
              (parse_prefix-Within lib (parse_expression lib fuel) fn p
                (prefix_fn-pending p.cur_token.kind e) sound)
              (omega arith)
              λ e q i.
                Within-le
                  (infix_loop-Within lib (suc fuel) (parse_expression lib fuel) level e q
                    (omega (arith, h, i)) λ l r m. sound l r (omega (arith, m, i)))
                  i)
    ]
