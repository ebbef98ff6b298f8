-- ===== src/Expressions/Grammar/Turns.antt =====
-- One turn of parseExpression's loop over the operators, and its end.
use standalone_policy_engine.Base.{
  ℕ, zero, suc, ◌<◌, ◌≤◌, ◌≡◌, refl, sym, ap, ◌∙◌, true, false, some, List, ◌∷◌, ◌++◌, length,
  length-append, arith,
}
use standalone_policy_engine.Platform.{Platform}
use standalone_policy_engine.Ast.{BinaryOp, Node, binary}
use standalone_policy_engine.Tokens.{TokenType, tok_rbrace, tok_eof}
use standalone_policy_engine.Parser.{Parser, done, P, advance, kind_eq}
use standalone_policy_engine.Expressions.{
  precedence, infix_op, parse_infix, keeps_on, infix_loop, parse_expression,
}
use standalone_policy_engine.Expressions.Grammar.{
  Word, Operator, or_rank, and_rank, eq_rank, ne_rank, gt_rank, lt_rank, ge_rank, le_rank, in_rank,
  contains_rank, after,
}
use standalone_policy_engine.Expressions.Grammar.Atoms.{after-append, peek-after, IsAtLoop}

-- What the parser's tables say of an operator.
pub record IsOperator (t : TokenType) (op : BinaryOp) (q : ℕ) : Type 0 where
  pub registered : infix_op t ≡ some op
  pub ranked : precedence t ≡ q
  pub no_brace : kind_eq t tok_rbrace ≡ false
  pub no_end : kind_eq t tok_eof ≡ false

pub Operator-IsOperator :
    {t : TokenType} {op : BinaryOp} {q : ℕ} → Operator t op q → IsOperator t op q
Operator-IsOperator or_rank = record {
  registered = refl;
  ranked = refl;
  no_brace = refl;
  no_end = refl;
}
Operator-IsOperator and_rank = record {
  registered = refl;
  ranked = refl;
  no_brace = refl;
  no_end = refl;
}
Operator-IsOperator eq_rank = record {
  registered = refl;
  ranked = refl;
  no_brace = refl;
  no_end = refl;
}
Operator-IsOperator ne_rank = record {
  registered = refl;
  ranked = refl;
  no_brace = refl;
  no_end = refl;
}
Operator-IsOperator gt_rank = record {
  registered = refl;
  ranked = refl;
  no_brace = refl;
  no_end = refl;
}
Operator-IsOperator lt_rank = record {
  registered = refl;
  ranked = refl;
  no_brace = refl;
  no_end = refl;
}
Operator-IsOperator ge_rank = record {
  registered = refl;
  ranked = refl;
  no_brace = refl;
  no_end = refl;
}
Operator-IsOperator le_rank = record {
  registered = refl;
  ranked = refl;
  no_brace = refl;
  no_end = refl;
}
Operator-IsOperator in_rank = record {
  registered = refl;
  ranked = refl;
  no_brace = refl;
  no_end = refl;
}
Operator-IsOperator contains_rank = record {
  registered = refl;
  ranked = refl;
  no_brace = refl;
  no_end = refl;
}

keeps_on-stops :
    (level : ℕ) (q : Parser) → precedence q.peek_token.kind ≤ level → keeps_on level q ≡ false
keeps_on-stops level q h = ground arith

keeps_on-goes :
    (level r : ℕ) (q : Parser) {t : TokenType} {op : BinaryOp}
    → q.peek_token.kind ≡ t
    → IsOperator t op r
    → level < r
    → keeps_on level q ≡ true
keeps_on-goes level r q e o h =
    let b = o.no_brace in let c = o.no_end in let d = o.ranked in rw e (ground arith)

-- The loop stops at a token of no higher rank.
infix_loop-stops :
    (lib : Platform) (j : ℕ) (expression : ℕ → P Node) (level : ℕ) (n : Node) (q : Parser)
    → precedence q.peek_token.kind ≤ level
    → 0 < j
    → infix_loop lib j expression level n q ≡ done n q
unfolding infix_loop
infix_loop-stops lib zero expression level n q h l = absurd (omega (arith, l))
infix_loop-stops lib (suc j) expression level n q h l =
    rw (infix_loop, keeps_on-stops level q h) refl

-- Behind a whole expression of its level, parseExpression is done.
pub loop-done :
    (lib : Platform) {f level : ℕ} {p : Parser} {n : Node} {ts : List Word}
    (s : IsAtLoop lib f level p n ts)
    → precedence (after lib ts p).cur_token.kind ≤ level
    → length ts ≤ f
    → parse_expression lib (suc f) level p ≡ done n s.at
loop-done lib {f = f} {level = level} {n = n} s h l =
    s.loops
    ∙ infix_loop-stops lib s.steps (parse_expression lib f) level n s.at
        (rw (peek-after lib s.at _ s.behind) h) (omega (arith, l, s.enough))

pub precedence-le_five : (k : TokenType) → precedence k ≤ 5
precedence-le_five k = ground arith

-- One turn of the loop, at an operator.
infix_loop-turn :
    (lib : Platform) (j : ℕ) (expression : ℕ → P Node) (level r : ℕ) (n m : Node) (op : BinaryOp)
    (q x z : Parser)
    → keeps_on level q ≡ true
    → infix_op q.peek_token.kind ≡ some op
    → advance lib q ≡ x
    → infix_op x.cur_token.kind ≡ some op
    → precedence x.cur_token.kind ≡ r
    → expression r (advance lib x) ≡ done m z
    → infix_loop lib (suc j) expression level n q
      ≡ infix_loop lib j expression level (binary op n m) z
unfolding infix_loop parse_infix
infix_loop-turn lib j expression level r n m op q x z g i e o k d =
    let step : parse_infix lib expression n x ≡ done (binary op n m) z =
      rw (parse_infix, o, k, d) refl in
    rw (infix_loop, g, i, e, step) refl

positive-suc : (n : ℕ) → 0 < n → (m : ℕ) × (n ≡ suc m)
positive-suc zero h = absurd (omega (arith, h))
positive-suc (suc m) h = (m, refl)

-- An operator and its right operand are read in one turn of the loop.
pub joined-IsAtLoop :
    (lib : Platform) {f level r : ℕ} {p : Parser} {n m : Node} {ts : List Word} (us : List Word)
    (w : Word) {op : BinaryOp} (s : IsAtLoop lib (suc f) level p n ts)
    → IsOperator w.0 op r
    → level < r
    → (after lib ts p).cur_token.kind ≡ w.0
    → length ts ≤ suc f
    → (z : Parser) → parse_expression lib (suc f) r (advance lib (after lib ts p)) ≡ done m z
    → advance lib z ≡ after lib us (advance lib (after lib ts p))
    → IsAtLoop lib (suc f) level p (binary op n m) (ts ++ w ∷ us)
unfolding after
joined-IsAtLoop lib {f = f} {level = level} {r = r} {p = p} {n = n} {m = m} {ts = ts} us w {op = op}
      s o h e l z d g =
    let (j, k) = positive-suc s.steps (omega (arith, s.enough, l)) in
    let x = after lib ts p in
    let peek : s.at.peek_token.kind ≡ w.0 = ap (λ t. t.kind) (peek-after lib s.at x s.behind) ∙ e in
    record {
      at = z;
      steps = j;
      loops =
          s.loops
          ∙ ap (λ i. infix_loop lib i (parse_expression lib (suc f)) level n s.at) k
          ∙ infix_loop-turn lib j (parse_expression lib (suc f)) level r n m op s.at x z
              (keeps_on-goes level r s.at peek o h) (ap infix_op peek ∙ o.registered) s.behind
              (ap infix_op e ∙ o.registered) (ap precedence e ∙ o.ranked) d;
      behind = g ∙ sym (after-append lib ts (w ∷ us) p);
      enough = omega (arith, s.enough, k, length-append ts (w ∷ us));
    }
