-- ===== src/Statements.antt =====
-- The policies of internal/parser/parser.go: parseScope, parsePolicy and Parse, with
-- parseObligation of obligation.go. A policy's id and tenant are filled in later, by the compiler.
pub mod Steady
pub mod Total
use standalone_policy_engine.Base.{
  ℕ, zero, suc, Bool, true, false, not, ◌&&◌, ◌||◌, Option, none, some, List, [], ◌∷◌, ◌++◌, length,
  if◌then◌else◌, ltb, ◌==◌,
}
use standalone_policy_engine.Base.Text.{Text, txt, text_eq}
use standalone_policy_engine.Ast.{
  Effect, permit, forbid, ScopeNode, ScopeOp, scope_eq, scope_in, scope_any, BinaryOp, and, or, eq,
  ne, gt, lt, ge, le, is_in, contains, op_not, VarScope, principal, resource, context, ValueNode,
  string, int, bool, ip, ip_net, Node, absent, value, variable, unary, binary, ObligationNode,
  PolicyNode,
}
use standalone_policy_engine.Platform.{Platform, parse_int}
use standalone_policy_engine.Tokens.{
  TokenType, tok_eof, tok_illegal, tok_ident, tok_int, tok_string, tok_ip, tok_permit, tok_forbid,
  tok_principal, tok_action, tok_resource, tok_any, tok_when, tok_unless, tok_in, tok_contains,
  tok_obligation, tok_true, tok_false, tok_eq, tok_ne, tok_gt, tok_lt, tok_ge, tok_le, tok_and,
  tok_or, tok_not, tok_dot, tok_comma, tok_colon, tok_semicolon, tok_lparen, tok_rparen, tok_lbrace,
  tok_rbrace, Position, Token,
}
use standalone_policy_engine.Lexer.{Lexer, new_lexer, next_token}
use standalone_policy_engine.Parser.{
  Parser, Parsed, done, failed, out_of_fuel, P, bind, ◌>>=◌, ◌>>◌, pure, cur_token_is,
  peek_token_is, add_error, advance, expect_peek, next, literal, new_parser,
}
use standalone_policy_engine.Expressions.{lowest, parse_expression}

-- `p.addError(pos, ...); return nil`
abbrev pub fail_at {ℓ} : {A : Type ℓ} → Position → P A
fail_at pos p = failed (add_error pos p)

abbrev pub scope_op : TokenType → Option ScopeOp
scope_op tok_eq = some scope_eq
scope_op tok_in = some scope_in
scope_op k = none

abbrev pub is_entity_type : TokenType → Bool
is_entity_type tok_ident = true
is_entity_type tok_principal = true
is_entity_type tok_action = true
is_entity_type tok_resource = true
is_entity_type k = false

abbrev pub is_entity_id : TokenType → Bool
is_entity_id tok_string = true
is_entity_id tok_ident = true
is_entity_id k = false

abbrev pub start_effect : TokenType → Option Effect
start_effect tok_permit = some permit
start_effect tok_forbid = some forbid
start_effect k = none

abbrev pub starts_condition : TokenType → Bool
starts_condition tok_when = true
starts_condition tok_unless = true
starts_condition k = false

-- The result of `policy.Condition == nil`
abbrev pub present : Node → P Node
present absent p = failed p
present e p = done e p

-- The policy of the parts that parsePolicy has read.
abbrev pub policy_of :
    Effect → ScopeNode → ScopeNode → ScopeNode → Node × Bool → List ObligationNode → PolicyNode
policy_of effect who action object condition obligations = record {
  id = [];
  tenant_id = [];
  effect = effect;
  principal = some who;
  action = some action;
  resource = some object;
  condition = condition.0;
  is_unless = condition.1;
  explanation_list = [];
  required_attributes = [];
  obligations = obligations;
}

module _ (lib : Platform) where
  -- The id of an entity, after its type and a colon.
  unfoldable pub parse_entity_id : P Text
  parse_entity_id p = elim (is_entity_id p.peek_token.kind) [
    | false ↦ fail_at p.peek_token.pos p
    | true ↦ literal (advance lib p)
  ]

  -- The value of a scope, at the value.
  unfoldable pub parse_scope_value : ScopeOp → P ScopeNode
  parse_scope_value op p = elim (cur_token_is tok_any p) [
    | true ↦ done (record { operator = scope_any; entity_type = []; entity_id = [] }) p
    | false ↦ elim (is_entity_type p.cur_token.kind) [
      | false ↦ fail_at p.cur_token.pos p
      | true ↦ bind (expect_peek lib tok_colon p) λ _. parse_entity_id >>= λ id.
          pure (record { operator = op; entity_type = p.cur_token.literal; entity_id = id })
    ]
  ]

  unfoldable pub parse_scope : TokenType → P ScopeNode
  parse_scope keyword p = elim (cur_token_is keyword p) [
    | false ↦ fail_at p.cur_token.pos p
    | true ↦ elim (scope_op p.peek_token.kind) [
      | none ↦ fail_at p.peek_token.pos p
      | some op ↦ (next lib >> parse_scope_value op) (advance lib p)
    ]
  ]

  -- The message of an obligation, empty when there is none.
  unfoldable pub parse_message : P Text
  parse_message p = elim (peek_token_is tok_string p) [
    | true ↦ literal (advance lib p)
    | false ↦ done [] p
  ]

  unfoldable pub parse_obligation : P ObligationNode
  parse_obligation =
      expect_peek lib tok_ident
      >> (literal >>= λ kind.
          parse_message >>= λ message. pure (record { kind = kind; message = message }))

  unfoldable pub parse_obligations : ℕ → P (List ObligationNode)
  parse_obligations zero p = out_of_fuel
  parse_obligations (suc n) p = elim (peek_token_is tok_obligation p) [
    | false ↦ done [] p
    | true ↦ (parse_obligation >>= λ o. parse_obligations n >>= λ os. pure (o ∷ os)) (advance lib p)
  ]

  -- The condition between its braces.
  unfoldable pub parse_braces : ℕ → P Node
  parse_braces fuel =
      expect_peek lib tok_lbrace
      >> (next lib
          >> (parse_expression lib fuel lowest >>= λ e.
              present e >>= λ e. expect_peek lib tok_rbrace >> pure e))

  -- The condition of a policy, `absent` when there is none, and whether it is an `unless`.
  unfoldable pub parse_condition : ℕ → P (Node × Bool)
  parse_condition fuel p = elim (starts_condition p.peek_token.kind) [
    | false ↦ done (absent, false) p
    | true ↦
        let q = advance lib p in bind (parse_braces fuel q) λ e. pure (e, cur_token_is tok_unless q)
  ]

  -- A scope that follows a comma.
  unfoldable pub parse_next_scope : TokenType → P ScopeNode
  parse_next_scope keyword = expect_peek lib tok_comma >> (next lib >> parse_scope keyword)

  -- parsePolicy after the effect.
  unfoldable pub parse_body : ℕ → Effect → P PolicyNode
  parse_body fuel effect =
      expect_peek lib tok_lparen
      >> (next lib
          >> (parse_scope tok_principal >>= λ who. parse_next_scope tok_action >>= λ action.
              parse_next_scope tok_resource >>= λ object.
              expect_peek lib tok_rparen
              >> (parse_condition fuel >>= λ condition. parse_obligations fuel >>= λ obligations.
                  expect_peek lib tok_semicolon
                  >> pure (policy_of effect who action object condition obligations))))

  unfoldable pub parse_policy : ℕ → P PolicyNode
  parse_policy fuel p = elim (start_effect p.cur_token.kind) [
    | none ↦ fail_at p.cur_token.pos p
    | some effect ↦ parse_body fuel effect p
  ]

  -- The loop of Parse.
  unfoldable pub parse_loop : ℕ → ℕ → P (List PolicyNode)
  parse_loop fuel zero p = out_of_fuel
  parse_loop fuel (suc n) p = elim (cur_token_is tok_eof p) [
    | true ↦ done [] p
    | false ↦ elim (parse_policy fuel p) [
      | out_of_fuel ↦ out_of_fuel
      | failed q ↦ parse_loop fuel n (advance lib q)
      | done policy q ↦ bind (parse_loop fuel n (advance lib q)) λ more. pure (policy ∷ more)
    ]
  ]

  -- NewParser and Parse on a text.
  unfoldable pub parse : Text → Parsed (List PolicyNode)
  parse text = parse_loop (suc (length text)) (suc (length text)) (new_parser lib (new_lexer text))
