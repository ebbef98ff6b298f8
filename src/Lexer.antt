-- ===== src/Lexer.antt =====
-- The scanner of internal/parser/lexer.go. The source text is its list of runes, a
-- literal is a string again, and `rest` is the
-- part of it from the current position on, so that the current rune is its first, or 0 at the end.
-- A loop over runes stops at the end of the text: 0 is no space, no digit and no letter.
pub mod Progress
pub mod Words
pub mod Braces
pub mod Ends
use standalone_policy_engine.Base.{
  ℕ, zero, suc, ◌+◌, ◌-◌, Bool, true, false, not, ◌&&◌, ◌||◌, List, [], ◌∷◌, take, drop,
  if◌then◌else◌, ◌==◌,
}
use standalone_policy_engine.Base.Text.{Text, txt, text_eq}
use standalone_policy_engine.Base.Utf8.{of_runes}
use standalone_policy_engine.Platform.{Platform, is_digit}
use standalone_policy_engine.Tokens.{
  TokenType, Position, Token, lookup_ident, tok_and, tok_colon, tok_comma, tok_dot, tok_eof, tok_eq,
  tok_ge, tok_gt, tok_illegal, tok_int, tok_ip, tok_lbrace, tok_le, tok_lparen, tok_lt, tok_ne,
  tok_not, tok_or, tok_rbrace, tok_rparen, tok_semicolon, tok_string,
}

pub record Lexer : Type 0 where
  pub rest : List ℕ
  pub position : ℕ
  pub line : ℕ
  pub col : ℕ
  pub in_condition : Bool
  pub brace_count : ℕ

abbrev pub first_of : List ℕ → ℕ
first_of [] = 0
first_of (c ∷ s) = c

-- l.ch
abbrev pub ch : Lexer → ℕ
ch l = first_of l.rest

unfoldable pub peek_char : Lexer → ℕ
peek_char l = first_of (drop 1 l.rest)

-- The line and column after a move to the rune `c`.
unfoldable pub arrive : ℕ → Lexer → Lexer
arrive c l =
    if c == b'\n' then record l { line = l.line + 1; col = 0 } else record l { col = l.col + 1 }

unfoldable pub read_char : Lexer → Lexer
unfolding arrive
read_char l =
    arrive (first_of (drop 1 l.rest)) (record l { rest = drop 1 l.rest; position = l.position + 1 })

unfoldable pub new_lexer : List ℕ → Lexer
unfolding arrive
new_lexer input = arrive (first_of input) (record {
  rest = input;
  position = 0;
  line = 1;
  col = 0;
  in_condition = false;
  brace_count = 0;
})

-- for p(l.ch) { l.readChar() }, over the runes that are left
unfoldable pub read_while : (ℕ → Bool) → List ℕ → Lexer → Lexer
read_while p [] l = l
read_while p (c ∷ s) l = let after = read_while p s (read_char l) in if p c then after else l

abbrev pub is_space : ℕ → Bool
is_space c = c == b' ' || (c == b'\t' || (c == b'\n' || c == b'\r'))

unfoldable pub skip_whitespace : Lexer → Lexer
skip_whitespace l = read_while is_space l.rest l

unfoldable pub is_letter : Platform → ℕ → Bool
is_letter lib c = lib.is_unicode_letter c || c == b'_'

-- string(l.input[start:l.position])
unfoldable pub text_between : Lexer → Lexer → Text
text_between start stop = of_runes (take (stop.position - start.position) start.rest)

abbrev pub is_word_char : Platform → ℕ → Bool
is_word_char lib c = is_letter lib c || is_digit c

unfoldable pub read_identifier : Platform → Lexer → Lexer
read_identifier lib l = read_while (is_word_char lib) l.rest l

abbrev pub is_string_char : ℕ → Bool
is_string_char c = not (c == b'"') && not (c == 0)

-- The text between the quotes, and the state behind the closing one.
unfoldable pub read_string : Lexer → Text × Lexer
read_string l =
    let start = read_char l in
    let stop = read_while is_string_char start.rest start in
    (text_between start stop, read_char stop)

abbrev pub read_digits : Lexer → Lexer
read_digits l = read_while is_digit l.rest l

-- Up to three groups of a dot and digits: whether all were there.
unfoldable pub read_groups : ℕ → Lexer → Bool × Lexer
read_groups zero l = (true, l)
read_groups (suc n) l =
    let d = read_char l in
    let after = read_groups n (read_digits d) in
    if ch l == b'.' then (if is_digit (ch d) then after else (false, d)) else (false, l)

-- A slash and digits after an address.
unfoldable pub read_mask : Bool × Lexer → Bool × Lexer
read_mask (false, l) = (false, l)
read_mask (true, l) =
    let d = read_char l in
    if ch l == b'/'
    then (if is_digit (ch d) then (true, read_digits d) else (false, d))
    else (true, l)

unfoldable pub read_number_or_ip : Lexer → TokenType × Lexer
read_number_or_ip l =
    let after = read_digits l in
    if ch after == b'.'
    then (let r = read_mask (read_groups 3 after) in (if r.0 then tok_ip else tok_illegal, r.1))
    else (tok_int, after)

-- The cases of the switch on l.ch. In `pair` the rune `second` must follow for the first type.
pub data Start : Type 0 where
  pair : ℕ → TokenType → TokenType → Start
  single : TokenType → Start
  quote end other : Start

unfoldable pub start_of : ℕ → Start
start_of c =
    if c == b'='
    then pair b'=' tok_eq tok_illegal
    else if c == b'!'
    then pair b'=' tok_ne tok_not
    else if c == b'>'
    then pair b'=' tok_ge tok_gt
    else if c == b'<'
    then pair b'=' tok_le tok_lt
    else if c == b'&'
    then pair b'&' tok_and tok_illegal
    else if c == b'|'
    then pair b'|' tok_or tok_illegal
    else if c == b'.'
    then single tok_dot
    else if c == b','
    then single tok_comma
    else if c == b':'
    then single tok_colon
    else if c == b';'
    then single tok_semicolon
    else if c == b'('
    then single tok_lparen
    else if c == b')'
    then single tok_rparen
    else if c == b'{'
    then single tok_lbrace
    else if c == b'}'
    then single tok_rbrace
    else if c == b'"'
    then quote
    else if c == 0
    then end
    else other

-- What `{` and `}` do to the state.
unfoldable pub count_brace : TokenType → Lexer → Lexer
count_brace tok_lbrace l = record l { brace_count = l.brace_count + 1; in_condition = true }
count_brace tok_rbrace l =
    if l.brace_count - 1 == 0
    then record l { brace_count = 0; in_condition = false }
    else record l { brace_count = l.brace_count - 1 }
count_brace kind l = l

abbrev pub position_of : Lexer → Position
position_of l = record { line = l.line; column = l.col; offset = l.position }

-- The default case of the switch.
unfoldable pub read_other : Platform → Lexer → Token × Lexer
read_other lib l =
    if is_letter lib (ch l)
    then (let after = read_identifier lib l in
        let word = text_between l after in
        (record { kind = lookup_ident word; literal = word; pos = position_of l }, after))
    else if is_digit (ch l)
    then (let r = read_number_or_ip l in
        (record { kind = r.0; literal = text_between l r.1; pos = position_of l }, r.1))
    else (
      record { kind = tok_illegal; literal = of_runes (ch l ∷ []); pos = position_of l },
      read_char l,
    )

unfoldable pub token_at : Platform → Start → Lexer → Token × Lexer
token_at lib (pair second both one) l =
    if peek_char l == second
    then (
      record { kind = both; literal = of_runes (ch l ∷ second ∷ []); pos = position_of l },
      read_char (read_char l),
    )
    else (record { kind = one; literal = of_runes (ch l ∷ []); pos = position_of l }, read_char l)
token_at lib (single kind) l = (
  record { kind = kind; literal = of_runes (ch l ∷ []); pos = position_of l },
  read_char (count_brace kind l),
)
token_at lib quote l =
    let r = read_string l in (record { kind = tok_string; literal = r.0; pos = position_of l }, r.1)
token_at lib end l = (record { kind = tok_eof; literal = []; pos = position_of l }, read_char l)
token_at lib other l = read_other lib l

unfoldable pub next_token : Platform → Lexer → Token × Lexer
next_token lib l0 = let l = skip_whitespace l0 in token_at lib (start_of (ch l)) l
