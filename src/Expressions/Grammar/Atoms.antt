-- ===== src/Expressions/Grammar/Atoms.antt =====
-- The parser reads the parts of a condition that have no operator between them.
use standalone_policy_engine.Base.{
  ℕ, suc, ◌+◌, ◌<◌, ◌≡◌, refl, ap, ◌∙◌, true, some, List, [], ◌∷◌, ◌++◌, length, arith,
}
use standalone_policy_engine.Base.Text.{Text, text_eq}
use standalone_policy_engine.Platform.{Platform, parse_int}
use standalone_policy_engine.Ast.{VarScope, Node}
use standalone_policy_engine.Tokens.{TokenType, tok_dot, tok_ident}
use standalone_policy_engine.Parser.{Parser, done, advance, expect_peek, kind_eq}
use standalone_policy_engine.Expressions.{
  Prefix, number, text, address as address_fn, boolean, name, prefix_fn, scope_of_name,
  parse_number, parse_ip, parse_variable, parse_prefix, infix_loop, parse_expression,
}
use standalone_policy_engine.Expressions.Grammar.{
  Word, Root, principal_root, resource_root, context_root, Atom, quoted, digits, truth, falsity,
  address, path, Upcoming, after,
}

pub after-append :
    (lib : Platform) (ts us : List Word) (p : Parser)
    → after lib (ts ++ us) p ≡ after lib us (after lib ts p)
unfolding after
after-append lib [] us p = refl
after-append lib (t ∷ ts) us p = after-append lib ts us (advance lib p)

pub Upcoming-append :
    (lib : Platform) (ts us : List Word) (p : Parser)
    → Upcoming lib (ts ++ us) p
    → Upcoming lib ts p × Upcoming lib us (after lib ts p)
unfolding after Upcoming
Upcoming-append lib [] us p u = (tt, u)
Upcoming-append lib (t ∷ ts) us p (k, s, u) =
    let (v, w) = Upcoming-append lib ts us (advance lib p) u in ((k, s, v), w)

-- What stands behind the parser's current token.
pub peek-after : (lib : Platform) (q r : Parser) → advance lib q ≡ r → q.peek_token ≡ r.cur_token
unfolding advance
peek-after lib q r e = ap (λ x. x.cur_token) e

kind_eq-same : (k : TokenType) → kind_eq k k ≡ true
kind_eq-same k = ground arith

pub expect_peek-done :
    (lib : Platform) (k : TokenType) (p : Parser)
    → p.peek_token.kind ≡ k
    → expect_peek lib k p ≡ done tt (advance lib p)
unfolding expect_peek
expect_peek-done lib k p e = rw (e, kind_eq-same k) refl

-- The parser is in the loop over the operators behind the words, with `j` steps of it left.
pub record IsAtLoop (lib : Platform) (f level : ℕ) (p : Parser) (n : Node) (ts : List Word)
    : Type 0 where
  pub at : Parser
  pub steps : ℕ
  pub loops :
      parse_expression lib (suc f) level p
      ≡ infix_loop lib steps (parse_expression lib f) level n at
  pub behind : advance lib at ≡ after lib ts p
  pub enough : suc f < steps + length ts

pub parse_prefix-IsAtLoop :
    (lib : Platform) {f level : ℕ} {p : Parser} {n : Node} {ts : List Word} (fn : Prefix)
    (q : Parser)
    → prefix_fn p.cur_token.kind ≡ some fn
    → parse_prefix lib (parse_expression lib f) fn p ≡ done n q
    → advance lib q ≡ after lib ts p
    → 0 < length ts
    → IsAtLoop lib f level p n ts
unfolding parse_expression
parse_prefix-IsAtLoop lib {f = f} fn q e h g l = record {
  at = q;
  steps = suc f;
  loops = rw (parse_expression, e, h) refl;
  behind = g;
  enough = omega (arith, l);
}

Root-name :
    {k : TokenType} {s : Text} {scope : VarScope}
    → Root k s scope
    → (prefix_fn k ≡ some name) × (scope_of_name s ≡ some scope)
unfolding text_eq
Root-name principal_root = (refl, refl)
Root-name resource_root = (refl, refl)
Root-name context_root = (refl, refl)

pub Atom-IsAtLoop :
    (lib : Platform) {f level : ℕ} (p : Parser) {n : Node} {ts : List Word}
    → Atom lib n ts
    → Upcoming lib ts p
    → IsAtLoop lib f level p n ts
unfolding Upcoming after parse_prefix parse_number parse_ip parse_variable
Atom-IsAtLoop lib p (quoted s) (k, e, _) =
    parse_prefix-IsAtLoop lib text p (ap prefix_fn k) (rw e refl) refl (omega arith)
Atom-IsAtLoop lib p (digits s n h) (k, e, _) =
    parse_prefix-IsAtLoop lib number p (ap prefix_fn k) (rw (parse_number, ap parse_int e ∙ h) refl)
      refl (omega arith)
Atom-IsAtLoop lib p (truth w) (k, e, _) =
    parse_prefix-IsAtLoop lib boolean p (ap prefix_fn k) (rw k refl) refl (omega arith)
Atom-IsAtLoop lib p (falsity w) (k, e, _) =
    parse_prefix-IsAtLoop lib boolean p (ap prefix_fn k) (rw k refl) refl (omega arith)
Atom-IsAtLoop lib p (address s a h) (k, e, _) =
    parse_prefix-IsAtLoop lib address_fn p (ap prefix_fn k)
      (rw (parse_ip, ap lib.parse_ip e ∙ h) refl) refl (omega arith)
Atom-IsAtLoop lib p (path k s w field scope root) (e, es, t) =
    let (d, ed, rest) = t in
    let (i, ei, _) = rest in
    let q = advance lib p in
    let r = advance lib q in
    let (x, y) = Root-name root in
    parse_prefix-IsAtLoop lib name r (ap prefix_fn e ∙ x)
      (rw
        (
          parse_variable,
          ap scope_of_name es ∙ y,
          expect_peek-done lib tok_dot p (ap (λ t. t.kind) (peek-after lib p q refl) ∙ d),
          expect_peek-done lib tok_ident q (ap (λ t. t.kind) (peek-after lib q r refl) ∙ i),
          ei,
        )
        refl)
      refl (omega arith)
