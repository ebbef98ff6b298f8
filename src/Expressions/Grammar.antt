-- ===== src/Expressions/Grammar.antt =====
-- The language of conditions, apart from the parser: how a tree is written in words, with the
-- operators of a higher rank binding tighter, and the ones of a rank grouping to the left.
pub mod Atoms
pub mod Turns
pub mod Reading
use standalone_policy_engine.Base.{ℕ, ◌-◌, ◌<◌, ◌≡◌, some, true, false, List, [], ◌∷◌, ◌++◌}
use standalone_policy_engine.Base.Int.{ℤ}
use standalone_policy_engine.Base.Text.{Text, txt}
use standalone_policy_engine.Platform.{Platform, parse_int}
use standalone_policy_engine.Ast.{
  BinaryOp, and, or, eq, ne, gt, lt, ge, le, is_in, contains, op_not, VarScope, principal, resource,
  context, ValueNode, string, int, bool, ip, ip_net, IpNet, Node, value, variable, unary, binary,
}
use standalone_policy_engine.Tokens.{
  TokenType, tok_ident, tok_int, tok_string, tok_ip, tok_principal, tok_resource, tok_in,
  tok_contains, tok_true, tok_false, tok_eq, tok_ne, tok_gt, tok_lt, tok_ge, tok_le, tok_and,
  tok_or, tok_not, tok_dot, tok_lparen, tok_rparen, Token,
}
use standalone_policy_engine.Parser.{Parser, advance}

-- A token without its place.
abbrev pub Word : Type 0
Word = TokenType × Text

-- The operators and their ranks.
pub data Operator : TokenType → BinaryOp → ℕ → Type 0 where
  or_rank : Operator tok_or or 2
  and_rank : Operator tok_and and 3
  eq_rank : Operator tok_eq eq 4
  ne_rank : Operator tok_ne ne 4
  gt_rank : Operator tok_gt gt 5
  lt_rank : Operator tok_lt lt 5
  ge_rank : Operator tok_ge ge 5
  le_rank : Operator tok_le le 5
  in_rank : Operator tok_in is_in 5
  contains_rank : Operator tok_contains contains 5

-- The first word of a variable.
pub data Root : TokenType → Text → VarScope → Type 0 where
  principal_root : Root tok_principal (txt "principal") principal
  resource_root : Root tok_resource (txt "resource") resource
  context_root : Root tok_ident (txt "context") context

pub data Atom (lib : Platform) : Node → List Word → Type 0 where
  quoted : (s : Text) → Atom lib (value (string s)) ((tok_string, s) ∷ [])
  digits : (s : Text) (n : ℤ) → parse_int s ≡ some n → Atom lib (value (int n)) ((tok_int, s) ∷ [])
  truth : (w : Text) → Atom lib (value (bool true)) ((tok_true, w) ∷ [])
  falsity : (w : Text) → Atom lib (value (bool false)) ((tok_false, w) ∷ [])
  address :
      (s : Text) (a : List ℕ) → lib.parse_ip s ≡ some a → Atom lib (value (ip a)) ((tok_ip, s) ∷ [])
  path :
      (k : TokenType) (s w field : Text) (scope : VarScope)
      → Root k s scope
      → Atom lib (variable scope field) ((k, s) ∷ (tok_dot, w) ∷ (tok_ident, field) ∷ [])

-- The tree written in the words, with the operators outside of parentheses of a rank above `k`.
pub data Spells (lib : Platform) : ℕ → Node → List Word → Type 0 where
  atom : {k : ℕ} {n : Node} {ts : List Word} → Atom lib n ts → Spells lib k n ts
  negated :
      {k : ℕ} {n : Node} {ts : List Word} (w : Text)
      → Spells lib 6 n ts
      → Spells lib k (unary op_not n) ((tok_not, w) ∷ ts)
  grouped :
      {k : ℕ} {n : Node} {ts : List Word} (v w : Text)
      → Spells lib 1 n ts
      → Spells lib k n ((tok_lparen, v) ∷ (ts ++ (tok_rparen, w) ∷ []))
  joined :
      {k q : ℕ} {l r : Node} {ls rs : List Word} {t : TokenType} {op : BinaryOp} (w : Text)
      → Operator t op q
      → k < q
      → Spells lib (q - 1) l ls
      → Spells lib q r rs
      → Spells lib k (binary op l r) (ls ++ (t, w) ∷ rs)

module _ (lib : Platform) where
  -- The parser is about to read the words: the first is its current token.
  unfoldable pub Upcoming : List Word → Parser → Type 0
  Upcoming [] p = Unit {0}
  Upcoming ((k, s) ∷ ts) p =
      (p.cur_token.kind ≡ k) × (p.cur_token.literal ≡ s) × Upcoming ts (advance lib p)

  -- The parser behind the words.
  unfoldable pub after : List Word → Parser → Parser
  after [] p = p
  after (t ∷ ts) p = after ts (advance lib p)
