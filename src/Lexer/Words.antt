-- ===== src/Lexer/Words.antt =====
-- Words and strings: the literals and types of their tokens.
use standalone_policy_engine.Base.{
  ℕ, ◌+◌, ◌≡◌, refl, sym, ap, ap₂, ◌∙◌, Bool, true, false, ◌&&◌, [], ◌∷◌, ◌++◌, length, take, drop,
  arith,
}
use mathlib.Core.Path.{subst}
use standalone_policy_engine.Base.Text.{Text}
use standalone_policy_engine.Base.Utf8.{of_runes}
use standalone_policy_engine.Platform.{Platform}
use standalone_policy_engine.Tokens.{TokenType, tok_string, Token, lookup_ident}
use standalone_policy_engine.Lexer.{
  Lexer, first_of, ch, arrive, read_char, read_while, is_space, skip_whitespace, is_letter,
  text_between, is_word_char, read_identifier, is_string_char, read_string, other, start_of,
  read_other, token_at, next_token,
}
use standalone_policy_engine.Lexer.Progress.{rest-read_char}

unfoldable pub all_of : (ℕ → Bool) → Text → Bool
all_of p [] = true
all_of p (c ∷ s) = p c && all_of p s

position-read_char : (l : Lexer) → (read_char l).position ≡ l.position + 1
unfolding read_char arrive
position-read_char l = ground arith

-- What a loop over `s` leaves: the text behind it, and the position moved by its length.
abbrev IsPast : Text → Text → Lexer → Lexer → Type 0
IsPast s rest l after = (after.rest ≡ rest) × (after.position ≡ l.position + length s)

read_while-run :
    (p : ℕ → Bool) (s rest : Text) (l : Lexer)
    → all_of p s ≡ true
    → p (first_of rest) ≡ false
    → l.rest ≡ s ++ rest
    → IsPast s rest l (read_while p (s ++ rest) l)
unfolding read_while all_of
read_while-run p [] [] l a b e = (e, omega arith)
read_while-run p [] (c ∷ rest) l a b e = rw b (e, omega arith)
read_while-run p (c ∷ s) rest l a b e =
    let (x, y) : (p c ≡ true) × (all_of p s ≡ true) = ground arith in
    let (f, g) =
      read_while-run p s rest (read_char l) y b (rest-read_char l ∙ ap (λ t. drop 1 t) e) in
    rw x (f, omega (arith, g, position-read_char l))

-- The loop as it is called, on the text that is left.
read_while-IsPast :
    (p : ℕ → Bool) (s rest : Text) (l : Lexer)
    → all_of p s ≡ true
    → p (first_of rest) ≡ false
    → l.rest ≡ s ++ rest
    → IsPast s rest l (read_while p l.rest l)
read_while-IsPast p s rest l a b e =
    subst (λ t. IsPast s rest l (read_while p t l)) (sym e) (read_while-run p s rest l a b e)

take-append : (s rest : Text) → take (length s) (s ++ rest) ≡ s
take-append [] rest = refl
take-append (c ∷ s) rest = ap (λ t. c ∷ t) (take-append s rest)

text_between-IsPast :
    (s rest : Text) (l after : Lexer)
    → l.rest ≡ s ++ rest
    → IsPast s rest l after
    → text_between l after ≡ of_runes s
unfolding text_between
text_between-IsPast s rest l after e (r, p) =
    ap of_runes (ap₂ (λ n t. take n t) (omega (arith, p)) e ∙ take-append s rest)

-- A token with this type and literal, and the text behind it.
pub record IsRead (kind : TokenType) (literal rest : Text) (r : Token × Lexer) : Type 0 where
  pub kind_of : r.0.kind ≡ kind
  pub literal_of : r.0.literal ≡ literal
  pub rest_of : r.1.rest ≡ rest

ch-of : (l : Lexer) (c : ℕ) (s : Text) → l.rest ≡ c ∷ s → ch l ≡ c
ch-of l c s e = ap first_of e

word_at :
    (lib : Platform) (c : ℕ) (w rest : Text) (l : Lexer)
    → l.rest ≡ (c ∷ w) ++ rest
    → start_of c ≡ other
    → is_letter lib c ≡ true
    → all_of (is_word_char lib) w ≡ true
    → is_word_char lib (first_of rest) ≡ false
    → IsRead
        (lookup_ident (of_runes (c ∷ w)))
        (of_runes (c ∷ w))
        rest
        (token_at lib (start_of (ch l)) l)
unfolding token_at read_other read_identifier
word_at lib c w rest l e o h a b =
    let past =
      read_while-IsPast (is_word_char lib) (c ∷ w) rest l (unfold all_of in rw (h, a) refl) b e in
    let word = text_between-IsPast (c ∷ w) rest l _ e past in
    rw (ap start_of (ch-of l c (w ++ rest) e) ∙ o, ap (is_letter lib) (ch-of l c (w ++ rest) e) ∙ h)
      (record { kind_of = ap lookup_ident word; literal_of = word; rest_of = past.0 })

string_at :
    (lib : Platform) (s rest : Text) (l : Lexer)
    → l.rest ≡ b'"' ∷ (s ++ (b'"' ∷ rest))
    → all_of is_string_char s ≡ true
    → IsRead tok_string (of_runes s) rest (token_at lib (start_of (ch l)) l)
unfolding token_at read_string start_of
string_at lib s rest l e a =
    let opened = rest-read_char l ∙ ap (λ t. drop 1 t) e in
    let past = read_while-IsPast is_string_char s (b'"' ∷ rest) (read_char l) a refl opened in
    rw (ch-of l b'"' (s ++ (b'"' ∷ rest)) e) (record {
      kind_of = refl;
      literal_of = text_between-IsPast s (b'"' ∷ rest) (read_char l) _ opened past;
      rest_of = rest-read_char _ ∙ ap (λ t. drop 1 t) past.0;
    })

-- NextToken on a word behind white space: the token has the word as its literal, the type that
-- lookupIdent gives the word, and the text behind the word is left. The word starts with a letter
-- that is no space and none of the runes of the switch, goes on with letters and digits, and is
-- followed by a rune that is neither.
pub next_token_word :
    (lib : Platform) (spaces : Text) (c : ℕ) (w rest : Text) (l : Lexer)
    → l.rest ≡ spaces ++ ((c ∷ w) ++ rest)
    → all_of is_space spaces ≡ true
    → is_space c ≡ false
    → start_of c ≡ other
    → is_letter lib c ≡ true
    → all_of (is_word_char lib) w ≡ true
    → is_word_char lib (first_of rest) ≡ false
    → IsRead (lookup_ident (of_runes (c ∷ w))) (of_runes (c ∷ w)) rest (next_token lib l)
unfolding next_token skip_whitespace
next_token_word lib spaces c w rest l e q n o h a b =
    let m = read_while-IsPast is_space spaces ((c ∷ w) ++ rest) l q n e in
    word_at lib c w rest (read_while is_space l.rest l) m.0 o h a b

-- NextToken on a string behind white space: the token has the text between the quotes as its
-- literal, and the text behind the closing quote is left. The string has no quote and no rune 0.
pub next_token_string :
    (lib : Platform) (spaces s rest : Text) (l : Lexer)
    → l.rest ≡ spaces ++ (b'"' ∷ (s ++ (b'"' ∷ rest)))
    → all_of is_space spaces ≡ true
    → all_of is_string_char s ≡ true
    → IsRead tok_string (of_runes s) rest (next_token lib l)
unfolding next_token skip_whitespace
next_token_string lib spaces s rest l e q a =
    let m = read_while-IsPast is_space spaces (b'"' ∷ (s ++ (b'"' ∷ rest))) l q refl e in
    string_at lib s rest (read_while is_space l.rest l) m.0 a
