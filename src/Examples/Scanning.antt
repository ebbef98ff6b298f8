-- ===== src/Examples/Scanning.antt =====
-- The results on the scanner, at the text `any;`.
use standalone_policy_engine.Base.{◌↔◌, ◌≡◌, refl, [], ◌∷◌, ◌++◌}
use standalone_policy_engine.Base.Text.{Text, txt}
use standalone_policy_engine.Tokens.{tok_eof}
use standalone_policy_engine.Lexer.{ch, skip_whitespace, Lexer, new_lexer, arrive, next_token}
use standalone_policy_engine.Lexer.Ends.{ends_iff}
use standalone_policy_engine.Examples.{bare}

abbrev any_text : Text
any_text = txt "any;"

abbrev braces_text : Text
braces_text = txt "{ }"

abbrev string_text : Text
string_text = txt " \"hr\";"

rest-any : (new_lexer any_text).rest ≡ [] ++ (txt "any" ++ txt ";")
unfolding new_lexer arrive
rest-any = refl

rest-string : (new_lexer string_text).rest ≡ txt " " ++ (b'"' ∷ (txt "hr" ++ (b'"' ∷ txt ";")))
unfolding new_lexer arrive
rest-string = refl

abbrev after_brace : Lexer
after_brace = (next_token bare (new_lexer braces_text)).1

-- A rune 0 hides what follows it.
abbrev hidden : Text
hidden = 0 ∷ txt "forbid"

ends_iff_example :
    ((next_token bare (new_lexer hidden)).0.kind ≡ tok_eof)
    ↔ (ch (skip_whitespace (new_lexer hidden)) ≡ 0)
ends_iff_example = ends_iff bare (new_lexer hidden)
