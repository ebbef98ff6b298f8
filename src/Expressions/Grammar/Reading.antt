-- ===== src/Expressions/Grammar/Reading.antt =====
-- parseExpression reads every condition that the grammar spells, as the tree that it spells.
use standalone_policy_engine.Base.{
  ℕ, zero, suc, ◌≤◌, ◌≡◌, refl, sym, ap, ◌∙◌, List, [], ◌∷◌, length, length-append, arith,
}
use standalone_policy_engine.Platform.{Platform}
use standalone_policy_engine.Ast.{Node}
use standalone_policy_engine.Tokens.{tok_rparen}
use standalone_policy_engine.Parser.{Parser, advance}
use standalone_policy_engine.Expressions.{
  precedence, negation, group, prefix_fn, parse_negation, parse_group, parse_prefix,
}
use standalone_policy_engine.Expressions.Grammar.{
  Word, Spells, atom, negated, grouped, joined, Upcoming, after,
}
use standalone_policy_engine.Expressions.Grammar.Atoms.{
  after-append, Upcoming-append, peek-after, expect_peek-done, IsAtLoop, parse_prefix-IsAtLoop,
  Atom-IsAtLoop,
}
use standalone_policy_engine.Expressions.Grammar.Turns.{
  Operator-IsOperator, loop-done, precedence-le_five, joined-IsAtLoop,
}

pub Spells-IsAtLoop :
    (lib : Platform) {k : ℕ} {n : Node} {ts : List Word} (level f : ℕ) (p : Parser)
    → Spells lib k n ts
    → level ≤ k
    → length ts ≤ f
    → Upcoming lib ts p
    → precedence (after lib ts p).cur_token.kind ≤ suc k
    → IsAtLoop lib f level p n ts
unfolding Upcoming after parse_prefix parse_negation parse_group
Spells-IsAtLoop lib level f p (atom a) le l u h = Atom-IsAtLoop lib p a u
Spells-IsAtLoop lib level zero p (negated w s) le l u h = absurd (omega (arith, l))
Spells-IsAtLoop lib level (suc f) p (negated {n = n} {ts = ts} w s) le l (k, e, v) h =
    let five = precedence-le_five (after lib ts (advance lib p)).cur_token.kind in
    let child =
      Spells-IsAtLoop lib 6 f (advance lib p) s (omega arith) (omega (arith, l)) v
        (omega (arith, five)) in
    parse_prefix-IsAtLoop lib negation child.at (ap prefix_fn k)
      (rw (parse_negation, loop-done lib child (omega (arith, five)) (omega (arith, l))) refl)
      child.behind (omega arith)
Spells-IsAtLoop lib level zero p (grouped v w s) le l u h = absurd (omega (arith, l))
Spells-IsAtLoop lib level (suc f) p (grouped {n = n} {ts = ts} v w s) le l (k, e, u) h =
    let (v', (kr, er, _)) = Upcoming-append lib ts ((tok_rparen, w) ∷ []) (advance lib p) u in
    let size = length-append ts ((tok_rparen, w) ∷ []) in
    let one = ap precedence kr in
    let inner =
      Spells-IsAtLoop lib 1 f (advance lib p) s (omega arith) (omega (arith, l, size)) v'
        (omega (arith, one)) in
    parse_prefix-IsAtLoop lib group (advance lib inner.at) (ap prefix_fn k)
      (rw
        (
          parse_group,
          loop-done lib inner (omega (arith, one)) (omega (arith, l, size)),
          expect_peek-done lib tok_rparen inner.at
              (ap (λ t. t.kind) (peek-after lib inner.at _ inner.behind) ∙ kr),
        )
        refl)
      (ap (advance lib) inner.behind
        ∙ sym (after-append lib ts ((tok_rparen, w) ∷ []) (advance lib p)))
      (omega arith)
Spells-IsAtLoop lib level zero p (joined {ls = ls} {rs = rs} {t = t} w o above s x) le l u h =
    absurd (omega (arith, l, length-append ls ((t, w) ∷ rs)))
Spells-IsAtLoop lib level (suc f) p
      (joined {q = q} {l = a} {r = b} {ls = ls} {rs = rs} {t = t} w o above s x) le l u h =
    let y = after lib ls p in
    let (v, (kt, et, z)) = Upcoming-append lib ls ((t, w) ∷ rs) p u in
    let size = length-append ls ((t, w) ∷ rs) in
    let op = Operator-IsOperator o in
    let rank : precedence y.cur_token.kind ≡ q = ap precedence kt ∙ op.ranked in
    let next : precedence (after lib rs (advance lib y)).cur_token.kind ≤ q = omega (
      arith,
      h,
      above,
      ap (λ r. precedence r.cur_token.kind) (after-append lib ls ((t, w) ∷ rs) p),
    ) in
    let left =
      Spells-IsAtLoop lib level (suc f) p s (omega (arith, le, above)) (omega (arith, l, size)) v
        (omega (arith, rank)) in
    let right =
      Spells-IsAtLoop lib q f (advance lib y) x (omega arith) (omega (arith, l, size)) z
        (omega (arith, next)) in
    joined-IsAtLoop lib rs (t, w) left op (omega (arith, le, above)) kt (omega (arith, l, size))
      right.at (loop-done lib right next (omega (arith, l, size))) right.behind
