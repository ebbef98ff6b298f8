-- ===== src/Expressions.antt =====
-- The expressions of internal/parser/parser.go: the tables of precedences and of functions, and
-- parseExpression with the functions it calls.
pub mod Fuel
pub mod Grammar
use standalone_policy_engine.Base.{
  ℕ, zero, suc, Bool, true, false, not, ◌&&◌, ◌||◌, Option, none, some, List, [], ◌∷◌, ◌++◌, length,
  if◌then◌else◌, ltb, ◌==◌,
}
use standalone_policy_engine.Base.Text.{Text, txt, text_eq}
use standalone_policy_engine.Ast.{
  Effect, permit, forbid, ScopeNode, ScopeOp, scope_eq, scope_in, scope_any, BinaryOp, and, or, eq,
  ne, gt, lt, ge, le, is_in, contains, op_not, VarScope, principal, resource, context, ValueNode,
  string, int, bool, ip, ip_net, Node, absent, value, variable, unary, binary, ObligationNode,
  PolicyNode,
}
use standalone_policy_engine.Platform.{Platform, parse_int}
use standalone_policy_engine.Tokens.{
  TokenType, tok_eof, tok_illegal, tok_ident, tok_int, tok_string, tok_ip, tok_permit, tok_forbid,
  tok_principal, tok_action, tok_resource, tok_any, tok_when, tok_unless, tok_in, tok_contains,
  tok_obligation, tok_true, tok_false, tok_eq, tok_ne, tok_gt, tok_lt, tok_ge, tok_le, tok_and,
  tok_or, tok_not, tok_dot, tok_comma, tok_colon, tok_semicolon, tok_lparen, tok_rparen, tok_lbrace,
  tok_rbrace, Position, Token,
}
use standalone_policy_engine.Lexer.{Lexer, new_lexer, next_token}
use standalone_policy_engine.Parser.{
  Parser, Parsed, done, failed, out_of_fuel, P, bind, ◌>>=◌, ◌>>◌, pure, cur_token_is,
  peek_token_is, add_error, advance, expect_peek, next, literal,
}

abbrev pub lowest : ℕ
lowest = 1

abbrev pub prefix_level : ℕ
prefix_level = 6

-- The table of precedences, LOWEST for a token that is not in it.
abbrev pub precedence : TokenType → ℕ
precedence tok_or = 2
precedence tok_and = 3
precedence tok_eq = 4
precedence tok_ne = 4
precedence tok_gt = 5
precedence tok_lt = 5
precedence tok_ge = 5
precedence tok_le = 5
precedence tok_in = 5
precedence tok_contains = 5
precedence k = lowest

-- The infix functions are registered for the tokens that have an operator here.
abbrev pub infix_op : TokenType → Option BinaryOp
infix_op tok_or = some or
infix_op tok_and = some and
infix_op tok_eq = some eq
infix_op tok_ne = some ne
infix_op tok_gt = some gt
infix_op tok_lt = some lt
infix_op tok_ge = some ge
infix_op tok_le = some le
infix_op tok_in = some is_in
infix_op tok_contains = some contains
infix_op k = none

-- The registered prefix functions.
pub data Prefix : Type 0 where
  number text address boolean negation group name : Prefix

abbrev pub prefix_fn : TokenType → Option Prefix
prefix_fn tok_ident = some name
prefix_fn tok_int = some number
prefix_fn tok_string = some text
prefix_fn tok_ip = some address
prefix_fn tok_true = some boolean
prefix_fn tok_false = some boolean
prefix_fn tok_not = some negation
prefix_fn tok_lparen = some group
prefix_fn tok_principal = some name
prefix_fn tok_resource = some name
prefix_fn k = none

abbrev pub scope_of_name : Text → Option VarScope
scope_of_name s =
    if text_eq s (txt "principal")
    then some principal
    else if text_eq s (txt "resource")
    then some resource
    else if text_eq s (txt "context")
    then some context
    else none

-- `return nil` from a method that returns a Node
abbrev pub or_absent : Parsed Node → Parsed Node
or_absent (failed p) = done absent p
or_absent (done n p) = done n p
or_absent out_of_fuel = out_of_fuel

-- The test of the loop of parseExpression.
abbrev pub keeps_on : ℕ → Parser → Bool
keeps_on level p =
    not (peek_token_is tok_rbrace p)
    && (not (peek_token_is tok_eof p) && ltb level (precedence p.peek_token.kind))

module _ (lib : Platform) where
  unfoldable pub parse_number : P Node
  parse_number p = elim (parse_int p.cur_token.literal) [
    | none ↦ done absent (add_error p.cur_token.pos p)
    | some n ↦ done (value (int n)) p
  ]

  unfoldable pub parse_ip : P Node
  parse_ip p = elim (lib.parse_ip p.cur_token.literal) [
    | some a ↦ done (value (ip a)) p
    | none ↦ elim (lib.parse_cidr p.cur_token.literal) [
      | some n ↦ done (value (ip_net n)) p
      | none ↦ done absent (add_error p.cur_token.pos p)
    ]
  ]

  unfoldable pub parse_variable : P Node
  parse_variable p = elim (scope_of_name p.cur_token.literal) [
    | none ↦ done absent (add_error p.cur_token.pos p)
    | some scope ↦ or_absent (
        bind (expect_peek lib tok_dot p)
          λ _. expect_peek lib tok_ident >> (literal >>= λ field. pure (variable scope field)))
  ]

  -- parsePrefixExpression; `expression` is the call of parseExpression.
  unfoldable pub parse_negation : (ℕ → P Node) → P Node
  parse_negation expression =
      next lib >> (expression prefix_level >>= λ child. pure (unary op_not child))

  unfoldable pub parse_group : (ℕ → P Node) → P Node
  parse_group expression p =
      or_absent ((expression lowest >>= λ e. expect_peek lib tok_rparen >> pure e) (advance lib p))

  unfoldable pub parse_prefix : (ℕ → P Node) → Prefix → P Node
  parse_prefix expression number p = parse_number p
  parse_prefix expression text p = done (value (string p.cur_token.literal)) p
  parse_prefix expression address p = parse_ip p
  parse_prefix expression boolean p = done (value (bool (cur_token_is tok_true p))) p
  parse_prefix expression negation p = parse_negation expression p
  parse_prefix expression group p = parse_group expression p
  parse_prefix expression name p = parse_variable p

  -- parseInfixExpression, at the operator.
  unfoldable pub parse_infix : (ℕ → P Node) → Node → P Node
  parse_infix expression left p = elim (infix_op p.cur_token.kind) [
    | none ↦ done absent (add_error p.cur_token.pos p)
    | some op ↦
        bind (expression (precedence p.cur_token.kind) (advance lib p))
          λ right. pure (binary op left right)
  ]

  unfoldable pub infix_loop : ℕ → (ℕ → P Node) → ℕ → Node → P Node
  infix_loop zero expression level left p = out_of_fuel
  infix_loop (suc n) expression level left p = elim (keeps_on level p) [
    | false ↦ done left p
    | true ↦ elim (infix_op p.peek_token.kind) [
      | none ↦ done left p
      | some op ↦
          bind (parse_infix expression left (advance lib p)) λ e. infix_loop n expression level e
    ]
  ]

  unfoldable pub parse_expression : ℕ → ℕ → P Node
  parse_expression zero level p = out_of_fuel
  parse_expression (suc f) level p = elim (prefix_fn p.cur_token.kind) [
    | none ↦ done absent (add_error p.cur_token.pos p)
    | some fn ↦
        bind (parse_prefix (parse_expression f) fn p)
          λ left. infix_loop (suc f) (parse_expression f) level left
  ]
