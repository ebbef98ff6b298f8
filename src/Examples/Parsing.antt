-- ===== src/Examples/Parsing.antt =====
-- The results on the parser, at the text of one policy and at the text of one condition.
use standalone_policy_engine.Base.{List, [], ◌∷◌, ◌++◌, ◌≡◌, true}
use standalone_policy_engine.Base.Text.{Text, txt}
use standalone_policy_engine.Tokens.{
  tok_eof, tok_ident, tok_principal, tok_dot, tok_eq, tok_string, tok_and, tok_not, tok_true,
}
use standalone_policy_engine.Ast.{
  PolicyNode, Node, variable, principal, value, string, bool, unary, binary, op_not, eq, and,
}
use standalone_policy_engine.Lexer.{new_lexer}
use standalone_policy_engine.Parser.{Parser, done, cur_token_is, new_parser}
use standalone_policy_engine.Expressions.Grammar.{Word}
use standalone_policy_engine.Statements.{parse}
use standalone_policy_engine.Statements.Total.{parse_total}
use standalone_policy_engine.Examples.{bare}

abbrev policy_text : Text
policy_text = txt "permit(principal == user:bob, action == any, resource == any);"

parse_total_example :
    (policies : List PolicyNode) × (q : Parser) × (parse bare policy_text ≡ done policies q)
    × (cur_token_is tok_eof q ≡ true)
parse_total_example = parse_total bare policy_text

abbrev condition_text : Text
condition_text = txt "principal.a == \"x\" && !true"

abbrev condition_start : Parser
condition_start = new_parser bare (new_lexer condition_text)

abbrev equation_words : List Word
equation_words =
    (tok_principal, txt "principal")
    ∷ (tok_dot, txt ".")
    ∷ (tok_ident, txt "a")
    ∷ (tok_eq, txt "==")
    ∷ (tok_string, txt "x")
    ∷ []

abbrev condition_words : List Word
condition_words =
    equation_words ++ (tok_and, txt "&&") ∷ (tok_not, txt "!") ∷ (tok_true, txt "true") ∷ []

abbrev condition_tree : Node
condition_tree =
    binary and (binary eq (variable principal (txt "a")) (value (string (txt "x"))))
      (unary op_not (value (bool true)))
