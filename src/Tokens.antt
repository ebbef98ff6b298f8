-- ===== src/Tokens.antt =====
-- The tokens of internal/parser/lexer.go, and their positions in the text (ast.go).
use standalone_policy_engine.Base.{ℕ, if◌then◌else◌}
use standalone_policy_engine.Base.Text.{Text, txt, text_eq}

pub data TokenType : Type 0 where
  tok_eof tok_illegal tok_ident tok_int tok_string tok_ip : TokenType
  tok_permit tok_forbid tok_principal tok_action tok_resource tok_any tok_when tok_unless :
      TokenType
  tok_in tok_contains tok_obligation tok_true tok_false : TokenType
  tok_eq tok_ne tok_gt tok_lt tok_ge tok_le tok_and tok_or tok_not tok_dot : TokenType
  tok_comma tok_colon tok_semicolon tok_lparen tok_rparen tok_lbrace tok_rbrace : TokenType

pub record Position : Type 0 where
  pub line : ℕ
  pub column : ℕ
  pub offset : ℕ

pub record Token : Type 0 where
  pub kind : TokenType
  pub literal : Text
  pub pos : Position

unfoldable pub lookup_ident : Text → TokenType
lookup_ident ident =
    if text_eq ident (txt "permit")
    then tok_permit
    else if text_eq ident (txt "forbid")
    then tok_forbid
    else if text_eq ident (txt "principal")
    then tok_principal
    else if text_eq ident (txt "action")
    then tok_action
    else if text_eq ident (txt "resource")
    then tok_resource
    else if text_eq ident (txt "any")
    then tok_any
    else if text_eq ident (txt "when")
    then tok_when
    else if text_eq ident (txt "unless")
    then tok_unless
    else if text_eq ident (txt "in")
    then tok_in
    else if text_eq ident (txt "contains")
    then tok_contains
    else if text_eq ident (txt "obligation")
    then tok_obligation
    else if text_eq ident (txt "true")
    then tok_true
    else if text_eq ident (txt "false")
    then tok_false
    else tok_ident
