-- ===== src/Lexer/Braces.antt =====
-- The stateful part of the scanner: inCondition and braceCount.
use standalone_policy_engine.Base.{
  ℕ, zero, suc, ◌≡◌, inl, inr, Bool, true, false, [], ◌∷◌, Bool-cases, ◌==◌, ltb, arith,
}
use standalone_policy_engine.Base.Text.{Text}
use standalone_policy_engine.Platform.{Platform, is_digit}
use standalone_policy_engine.Tokens.{TokenType, tok_lbrace, tok_rbrace}
use standalone_policy_engine.Lexer.{
  Lexer, ch, peek_char, arrive, read_char, read_while, new_lexer, skip_whitespace, is_letter,
  is_word_char, read_identifier, read_string, read_digits, read_groups, read_mask,
  read_number_or_ip, Start, pair, single, quote, end, other, count_brace, read_other, token_at,
  next_token,
}

-- The scanner is in a condition exactly while a brace is open.
abbrev pub IsBalanced : Lexer → Type 0
IsBalanced l = l.in_condition ≡ ltb 0 l.brace_count

new_lexer-IsBalanced : (input : Text) → IsBalanced (new_lexer input)
unfolding new_lexer arrive
new_lexer-IsBalanced input = ground arith

read_char-IsBalanced : (l : Lexer) → IsBalanced l → IsBalanced (read_char l)
unfolding read_char arrive
read_char-IsBalanced l h = ground arith

read_while-IsBalanced :
    (p : ℕ → Bool) (s : Text) (l : Lexer) → IsBalanced l → IsBalanced (read_while p s l)
unfolding read_while
read_while-IsBalanced p [] l h = h
read_while-IsBalanced p (c ∷ s) l h = elim (Bool-cases (p c)) [
  | inl e ↦ rw e (read_while-IsBalanced p s (read_char l) (read_char-IsBalanced l h))
  | inr e ↦ rw e h
]

read_groups-IsBalanced : (n : ℕ) (l : Lexer) → IsBalanced l → IsBalanced (read_groups n l).1
unfolding read_groups
read_groups-IsBalanced zero l h = h
read_groups-IsBalanced (suc n) l h =
    let d = read_char-IsBalanced l h in
    elim (Bool-cases (ch l == b'.')) [
      | inl e ↦ rw e (elim (Bool-cases (is_digit (ch (read_char l)))) [
        | inl g ↦ rw g (
            read_groups-IsBalanced n (read_digits (read_char l))
              (read_while-IsBalanced is_digit (read_char l).rest (read_char l) d))
        | inr g ↦ rw g d
      ])
      | inr e ↦ rw e h
    ]

read_mask-IsBalanced : (r : Bool × Lexer) → IsBalanced r.1 → IsBalanced (read_mask r).1
unfolding read_mask
read_mask-IsBalanced (false, l) h = h
read_mask-IsBalanced (true, l) h =
    let d = read_char-IsBalanced l h in
    elim (Bool-cases (ch l == b'/')) [
      | inl e ↦ rw e (elim (Bool-cases (is_digit (ch (read_char l)))) [
        | inl g ↦ rw g (read_while-IsBalanced is_digit (read_char l).rest (read_char l) d)
        | inr g ↦ rw g d
      ])
      | inr e ↦ rw e h
    ]

read_number_or_ip-IsBalanced : (l : Lexer) → IsBalanced l → IsBalanced (read_number_or_ip l).1
unfolding read_number_or_ip
read_number_or_ip-IsBalanced l h =
    let d = read_while-IsBalanced is_digit l.rest l h in
    elim (Bool-cases (ch (read_digits l) == b'.')) [
      | inl e ↦ rw e (
          read_mask-IsBalanced (read_groups 3 (read_digits l))
            (read_groups-IsBalanced 3 (read_digits l) d))
      | inr e ↦ rw e d
    ]

count_brace-IsBalanced :
    (kind : TokenType) (l : Lexer) → IsBalanced l → IsBalanced (count_brace kind l)
unfolding count_brace
count_brace-IsBalanced tok_lbrace l h = ground arith
count_brace-IsBalanced tok_rbrace l h = ground arith
count_brace-IsBalanced _ l h = h

read_other-IsBalanced :
    (lib : Platform) (l : Lexer) → IsBalanced l → IsBalanced (read_other lib l).1
unfolding read_other read_identifier
read_other-IsBalanced lib l h = elim (Bool-cases (is_letter lib (ch l))) [
  | inl e ↦ rw e (read_while-IsBalanced (is_word_char lib) l.rest l h)
  | inr e ↦ rw e (elim (Bool-cases (is_digit (ch l))) [
    | inl g ↦ rw g (read_number_or_ip-IsBalanced l h)
    | inr g ↦ rw g (read_char-IsBalanced l h)
  ])
]

token_at-IsBalanced :
    (lib : Platform) (s : Start) (l : Lexer) → IsBalanced l → IsBalanced (token_at lib s l).1
unfolding token_at read_string
token_at-IsBalanced lib (pair second both one) l h =
    let d = read_char-IsBalanced l h in
    elim (Bool-cases (peek_char l == second)) [
      | inl e ↦ rw e (read_char-IsBalanced (read_char l) d)
      | inr e ↦ rw e d
    ]
token_at-IsBalanced lib (single kind) l h =
    read_char-IsBalanced (count_brace kind l) (count_brace-IsBalanced kind l h)
token_at-IsBalanced lib quote l h =
    read_char-IsBalanced _
      (read_while-IsBalanced _ (read_char l).rest (read_char l) (read_char-IsBalanced l h))
token_at-IsBalanced lib end l h = read_char-IsBalanced l h
token_at-IsBalanced lib other l h = read_other-IsBalanced lib l h

-- The states that a run of NextToken over a text reaches.
pub data Scans (lib : Platform) (input : Text) : Lexer → Type 0 where
  starts : Scans lib input (new_lexer input)
  goes_on : {l : Lexer} → Scans lib input l → Scans lib input (next_token lib l).1

-- In every state that NextToken reaches from the start of a text, the scanner is in a condition
-- exactly while it counts an open brace.
pub in_condition_iff_open :
    (lib : Platform) (input : Text) (l : Lexer)
    → Scans lib input l
    → l.in_condition ≡ ltb 0 l.brace_count
unfolding next_token skip_whitespace
in_condition_iff_open lib input l starts = new_lexer-IsBalanced input
in_condition_iff_open lib input l (goes_on {l = k} past) =
    token_at-IsBalanced lib _ _
      (read_while-IsBalanced _ k.rest k (in_condition_iff_open lib input k past))
