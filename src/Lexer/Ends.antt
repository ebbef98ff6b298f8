-- ===== src/Lexer/Ends.antt =====
-- When the scanner reports the end of the text.
use standalone_policy_engine.Base.{
  ℕ, ◌≡◌, refl, inl, inr, ◌↔◌, Bool, true, false, not, ◌&&◌, Bool-cases, ◌==◌, ==_iff, arith,
}
use standalone_policy_engine.Base.Text.{Text}
use standalone_policy_engine.Platform.{Platform, is_digit}
use standalone_policy_engine.Tokens.{tok_eof, lookup_ident}
use standalone_policy_engine.Lexer.{
  Lexer, ch, skip_whitespace, is_letter, read_number_or_ip, Start, pair, single, quote, end, other,
  start_of, read_other, token_at, next_token,
}
use standalone_policy_engine.Lexer.Progress.{is_eof}

-- The case of the switch gives no token for the end of the text.
abbrev goes_on : Start → Bool
goes_on (pair second both one) = not (is_eof both) && not (is_eof one)
goes_on (single kind) = not (is_eof kind)
goes_on end = false
goes_on _ = true

goes_on-start_of : (c : ℕ) → goes_on (start_of c) ≡ not (c == 0)
unfolding start_of
goes_on-start_of c = ground arith

lookup_ident-ne : (w : Text) → is_eof (lookup_ident w) ≡ false
unfolding lookup_ident
lookup_ident-ne w = ground arith

number-ne : (l : Lexer) → is_eof (read_number_or_ip l).0 ≡ false
unfolding read_number_or_ip
number-ne l = ground arith

other-ne : (lib : Platform) (l : Lexer) → is_eof (read_other lib l).0.kind ≡ false
unfolding read_other
other-ne lib l = elim (Bool-cases (is_letter lib (ch l))) [
  | inl e ↦ rw e (lookup_ident-ne _)
  | inr e ↦
      rw e (elim (Bool-cases (is_digit (ch l))) [ inl d ↦ rw d (number-ne l) | inr d ↦ rw d refl ])
]

token_at-ne :
    (lib : Platform) (s : Start) (l : Lexer)
    → goes_on s ≡ true
    → is_eof (token_at lib s l).0.kind ≡ false
unfolding token_at
token_at-ne lib (pair second both one) l h = ground arith
token_at-ne lib (single kind) l h = ground arith
token_at-ne lib quote l h = refl
token_at-ne lib end l h = absurd (cc)
token_at-ne lib other l h = other-ne lib l

-- NextToken reports the end of the text exactly when the white space at its position is followed by
-- nothing or by a rune 0, whatever stands behind that rune.
pub ends_iff :
    (lib : Platform) (l : Lexer)
    → ((next_token lib l).0.kind ≡ tok_eof) ↔ (ch (skip_whitespace l) ≡ 0)
unfolding next_token
ends_iff lib l =
    let m = skip_whitespace l in
    (
      λ e. elim (Bool-cases (ch m == 0)) [
        | inl z ↦ (==_iff _ _).0 z
        | inr z ↦
            let more = token_at-ne lib (start_of (ch m)) m (rw (goes_on-start_of (ch m), z) refl) in
            absurd (let k = rw e at more in cc)
      ],
      λ z. rw z (unfold start_of token_at in refl),
    )
