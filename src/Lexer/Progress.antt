-- ===== src/Lexer/Progress.antt =====
-- How much of the text a call of NextToken consumes.
use standalone_policy_engine.Base.{
  Option, none, some, ℕ, zero, suc, ◌-◌, ◌<◌, ◌≤◌, ◌≡◌, ◌≢◌, ◌⊎◌, refl, Bool, true, false, inl, inr,
  List, [], ◌∷◌, length, drop, Bool-cases, if◌then◌else◌, arith,
}
use standalone_policy_engine.Base.Text.{Text}
use standalone_policy_engine.Platform.{Platform, is_digit}
use standalone_policy_engine.Tokens.{TokenType, tok_eof, tok_lbrace, tok_rbrace, Token}
use standalone_policy_engine.Lexer.{
  Lexer, first_of, ch, arrive, read_char, read_while, skip_whitespace, is_letter, is_word_char,
  read_identifier, read_string, read_digits, read_groups, read_mask, read_number_or_ip, Start, pair,
  single, quote, end, other, start_of, count_brace, read_other, token_at, next_token,
}

pub rest-read_char : (l : Lexer) → (read_char l).rest ≡ drop 1 l.rest
unfolding read_char arrive
rest-read_char l = ground arith

length-drop_one : (s : Text) → length (drop 1 s) ≡ length s - 1
length-drop_one [] = refl
length-drop_one (c ∷ s) = omega arith

-- The number of runes that are left.
abbrev pub left : Lexer → ℕ
left l = length l.rest

left-read_char : (l : Lexer) → left (read_char l) ≡ left l - 1
left-read_char l = rw (rest-read_char l) (length-drop_one l.rest)

left-read_while : (p : ℕ → Bool) (s : Text) (l : Lexer) → left (read_while p s l) ≤ left l
unfolding read_while
left-read_while p [] l = omega arith
left-read_while p (c ∷ s) l = ground (arith, left-read_while p s (read_char l), left-read_char l)

left-read_digits : (l : Lexer) → left (read_digits l) ≤ left l
left-read_digits l = left-read_while is_digit l.rest l

-- A rune that is not 0 stands in the text.
left-positive : (l : Lexer) → ch l ≢ 0 → 0 < left l
left-positive l n = go l.rest n
  where
    go : (s : Text) → first_of s ≢ 0 → 0 < length s
    go [] n = absurd (n refl)
    go (c ∷ s) n = omega arith

-- A loop whose first test holds consumes a rune.
left-read_while-lt :
    (p : ℕ → Bool) (l : Lexer) → p (ch l) ≡ true → ch l ≢ 0 → left (read_while p l.rest l) < left l
unfolding read_while
left-read_while-lt p l h n = go l.rest refl h n
  where
    go :
        (s : Text)
        → s ≡ l.rest
        → p (first_of s) ≡ true
        → first_of s ≢ 0
        → left (read_while p s l) < left l
    go [] e h n = absurd (n refl)
    go (c ∷ s) e h n =
        rw (read_while, h)
          (omega (
            arith,
            left-read_while p s (read_char l),
            left-read_char l,
            left-positive l (rw (← e) n),
          ))

left-read_groups : (n : ℕ) (l : Lexer) → left (read_groups n l).1 ≤ left l
unfolding read_groups
left-read_groups zero l = omega arith
left-read_groups (suc n) l = ground (
  arith,
  left-read_groups n (read_digits (read_char l)),
  left-read_digits (read_char l),
  left-read_char l,
)

left-read_mask : (r : Bool × Lexer) → left (read_mask r).1 ≤ left r.1
unfolding read_mask
left-read_mask (false, l) = omega arith
left-read_mask (true, l) = ground (arith, left-read_digits (read_char l), left-read_char l)

left-read_number_or_ip : (l : Lexer) → left (read_number_or_ip l).1 ≤ left (read_digits l)
unfolding read_number_or_ip
left-read_number_or_ip l =
    ground
      (arith, left-read_mask (read_groups 3 (read_digits l)), left-read_groups 3 (read_digits l))

left-read_string : (l : Lexer) → ch l ≢ 0 → left (read_string l).1 < left l
unfolding read_string
left-read_string l n = omega (
  arith,
  left-positive l n,
  left-read_char l,
  left-read_while _ (read_char l).rest (read_char l),
  left-read_char (read_while _ (read_char l).rest (read_char l)),
)

left-read_other : (lib : Platform) (l : Lexer) → ch l ≢ 0 → left (read_other lib l).1 < left l
unfolding read_other
left-read_other lib l n = elim (Bool-cases (is_letter lib (ch l))) [
  | inl e ↦ rw e (unfold read_identifier in left-read_while-lt (is_word_char lib) l (rw e refl) n)
  | inr e ↦ rw e (elim (Bool-cases (is_digit (ch l))) [
    | inl d ↦ rw d (omega (arith, left-read_number_or_ip l, left-read_while-lt is_digit l d n))
    | inr d ↦ rw d (omega (arith, left-read_char l, left-positive l n))
  ])
]

left-count_brace : (kind : TokenType) (l : Lexer) → left (count_brace kind l) ≡ left l
unfolding count_brace
left-count_brace tok_lbrace l = refl
left-count_brace tok_rbrace l = ground arith
left-count_brace _ l = refl

left-token_at :
    (lib : Platform) (s : Start) (l : Lexer)
    → s ≢ end
    → ch l ≢ 0
    → left (token_at lib s l).1 < left l
unfolding token_at
left-token_at lib (pair second both one) l e n =
    ground (arith, left-read_char l, left-read_char (read_char l), left-positive l n)
left-token_at lib (single kind) l e n =
    omega (arith, left-read_char (count_brace kind l), left-count_brace kind l, left-positive l n)
left-token_at lib quote l e n = left-read_string l n
left-token_at lib end l e n = absurd (e refl)
left-token_at lib other l e n = left-read_other lib l n

left-skip_whitespace : (l : Lexer) → left (skip_whitespace l) ≤ left l
unfolding skip_whitespace
left-skip_whitespace l = left-read_while _ l.rest l

start_of_zero : (c : ℕ) → start_of c ≢ end → c ≢ 0
unfolding start_of
start_of_zero c n e = n (rw e refl)

-- NextToken consumes at least one rune of the text unless it returns the end of the text.
pub next_token_progress :
    (lib : Platform) (l : Lexer)
    → (next_token lib l).0.kind ≢ tok_eof
    → left (next_token lib l).1 < left l
unfolding next_token
next_token_progress lib l h =
    let m = skip_whitespace l in
    let not_end : start_of (ch m) ≢ end = λ e. h (unfold token_at in rw e refl) in
    omega (
      arith,
      left-token_at lib (start_of (ch m)) m not_end (start_of_zero (ch m) not_end),
      left-skip_whitespace l,
    )

Start-cases : (s : Start) → (s ≡ end) ⊎ (s ≢ end)
Start-cases end = inl refl
Start-cases (pair second both one) = inr λ e. cc
Start-cases (single kind) = inr λ e. cc
Start-cases quote = inr λ e. cc
Start-cases other = inr λ e. cc

-- NextToken never gives a rune back.
pub next_token-le : (lib : Platform) (l : Lexer) → left (next_token lib l).1 ≤ left l
unfolding next_token
next_token-le lib l =
    let m = skip_whitespace l in
    elim (Start-cases (start_of (ch m))) [
      | inl e ↦ unfold token_at in rw e (omega (arith, left-skip_whitespace l, left-read_char m))
      | inr n ↦ omega (
        arith,
        left-token_at lib (start_of (ch m)) m n (start_of_zero (ch m) n),
        left-skip_whitespace l,
      )
    ]

abbrev pub is_eof : TokenType → Bool
is_eof tok_eof = true
is_eof _ = false

abbrev before : Token → Option (List Token) → Option (List Token)
before t none = none
before t (some ts) = some (t ∷ ts)

-- The tokens up to and with the end of the text, one call of NextToken after another; none where
-- the fuel runs out.
unfoldable pub all_tokens : ℕ → Platform → Lexer → Option (List Token)
all_tokens zero lib l = none
all_tokens (suc fuel) lib l =
    let more = all_tokens fuel lib (next_token lib l).1 in
    if is_eof (next_token lib l).0.kind
    then some ((next_token lib l).0 ∷ [])
    else before (next_token lib l).0 more

-- The calls of NextToken reach the end of the text: one more of them than the text has runes is
-- enough.
pub all_tokens_total :
    (fuel : ℕ) (lib : Platform) (l : Lexer)
    → left l < fuel
    → (ts : List Token) × (all_tokens fuel lib l ≡ some ts)
unfolding all_tokens
all_tokens_total zero lib l h = absurd (omega (arith, h))
all_tokens_total (suc fuel) lib l h = elim (Bool-cases (is_eof (next_token lib l).0.kind)) [
  | inl e ↦ rw e ((next_token lib l).0 ∷ [], refl)
  | inr e ↦
      let shorter = next_token_progress lib l (λ k. let f = rw k at e in cc) in
      let (ts, q) = all_tokens_total fuel lib (next_token lib l).1 (omega (arith, h, shorter)) in
      rw (e, q) ((next_token lib l).0 ∷ ts, refl)
]
