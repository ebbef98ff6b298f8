-- ===== src/Parser.antt =====
-- The state of the parser of internal/parser/parser.go and how it moves over the tokens. A method is a
-- function from the parser's state: it returns a value, or nil, or it has run out of fuel. A nil
-- Node is the node `absent`. An error is kept as its position, without its text.
pub mod Weight
use standalone_policy_engine.Base.{
  ℕ, zero, suc, Bool, true, false, not, ◌&&◌, ◌||◌, Option, none, some, List, [], ◌∷◌, ◌++◌, length,
  if◌then◌else◌, ltb, ◌==◌,
}
use standalone_policy_engine.Base.Text.{Text, txt, text_eq}
use standalone_policy_engine.Ast.{
  Effect, permit, forbid, ScopeNode, ScopeOp, scope_eq, scope_in, scope_any, BinaryOp, and, or, eq,
  ne, gt, lt, ge, le, is_in, contains, op_not, VarScope, principal, resource, context, ValueNode,
  string, int, bool, ip, ip_net, Node, absent, value, variable, unary, binary, ObligationNode,
  PolicyNode,
}
use standalone_policy_engine.Platform.{Platform, parse_int}
use standalone_policy_engine.Tokens.{
  TokenType, tok_eof, tok_illegal, tok_ident, tok_int, tok_string, tok_ip, tok_permit, tok_forbid,
  tok_principal, tok_action, tok_resource, tok_any, tok_when, tok_unless, tok_in, tok_contains,
  tok_obligation, tok_true, tok_false, tok_eq, tok_ne, tok_gt, tok_lt, tok_ge, tok_le, tok_and,
  tok_or, tok_not, tok_dot, tok_comma, tok_colon, tok_semicolon, tok_lparen, tok_rparen, tok_lbrace,
  tok_rbrace, Position, Token,
}
use standalone_policy_engine.Lexer.{Lexer, new_lexer, next_token}

pub record Parser : Type 0 where
  pub lexer : Lexer
  pub cur_token : Token
  pub peek_token : Token
  pub errors : List Position

-- What a method ends with.
pub data Parsed {ℓ} (A : Type ℓ) : Type ℓ where
  done : A → Parser → Parsed A
  failed : Parser → Parsed A
  out_of_fuel : Parsed A

abbrev pub P {ℓ} : Type ℓ → Type ℓ
P A = Parser → Parsed A

-- `if x == nil { return nil }` after a call
abbrev pub bind {ℓ κ} : {A : Type ℓ} {B : Type κ} → Parsed A → (A → P B) → Parsed B
bind (done a p) f = f a p
bind (failed p) f = failed p
bind out_of_fuel f = out_of_fuel

infixl 5 ◌>>=◌ ◌>>◌
abbrev pub ◌>>=◌ {ℓ κ} : {A : Type ℓ} {B : Type κ} → P A → (A → P B) → P B
◌>>=◌ m f p = bind (m p) f

abbrev pub ◌>>◌ {ℓ} : {B : Type ℓ} → P (Unit {0}) → P B → P B
m >> k = m >>= λ _. k

abbrev pub pure {ℓ} : {A : Type ℓ} → A → P A
pure a p = done a p

-- TokenType is a string, and two types are equal when these numbers are.
abbrev pub kind_code : TokenType → ℕ
kind_code tok_eof = 0
kind_code tok_illegal = 1
kind_code tok_ident = 2
kind_code tok_int = 3
kind_code tok_string = 4
kind_code tok_ip = 5
kind_code tok_permit = 6
kind_code tok_forbid = 7
kind_code tok_principal = 8
kind_code tok_action = 9
kind_code tok_resource = 10
kind_code tok_any = 11
kind_code tok_when = 12
kind_code tok_unless = 13
kind_code tok_in = 14
kind_code tok_contains = 15
kind_code tok_obligation = 16
kind_code tok_true = 17
kind_code tok_false = 18
kind_code tok_eq = 19
kind_code tok_ne = 20
kind_code tok_gt = 21
kind_code tok_lt = 22
kind_code tok_ge = 23
kind_code tok_le = 24
kind_code tok_and = 25
kind_code tok_or = 26
kind_code tok_not = 27
kind_code tok_dot = 28
kind_code tok_comma = 29
kind_code tok_colon = 30
kind_code tok_semicolon = 31
kind_code tok_lparen = 32
kind_code tok_rparen = 33
kind_code tok_lbrace = 34
kind_code tok_rbrace = 35

abbrev pub kind_eq : TokenType → TokenType → Bool
kind_eq a b = kind_code a == kind_code b

abbrev pub cur_token_is : TokenType → Parser → Bool
cur_token_is k p = kind_eq p.cur_token.kind k

abbrev pub peek_token_is : TokenType → Parser → Bool
peek_token_is k p = kind_eq p.peek_token.kind k

abbrev pub add_error : Position → Parser → Parser
add_error pos p = record p { errors = p.errors ++ pos ∷ [] }

abbrev pub literal : P Text
literal p = done p.cur_token.literal p

module _ (lib : Platform) where
  -- nextToken
  unfoldable pub advance : Parser → Parser
  advance p =
      let r = next_token lib p.lexer in
      record p { lexer = r.1; cur_token = p.peek_token; peek_token = r.0 }

  unfoldable pub new_parser : Lexer → Parser
  new_parser l =
      let a = next_token lib l in
      let b = next_token lib a.1 in
      record { lexer = b.1; cur_token = a.0; peek_token = b.0; errors = [] }

  unfoldable pub expect_peek : TokenType → P (Unit {0})
  expect_peek k p =
      if peek_token_is k p then done tt (advance p) else failed (add_error p.peek_token.pos p)

  -- A step that cannot fail.
  abbrev pub next : P (Unit {0})
  next p = done tt (advance p)
