-- ===== src/Parser/Weight.antt =====
-- How much is left for the parser to read: the runes that the scanner has not read, and the two
-- tokens that it has, unless they are the end of the text.
use standalone_policy_engine.Base.{
  ℕ, ◌+◌, ◌≤◌, ◌≡◌, inl, inr, length, Bool-cases, if◌then◌else◌, arith,
}
use standalone_policy_engine.Base.Text.{Text}
use standalone_policy_engine.Platform.{Platform}
use standalone_policy_engine.Tokens.{TokenType}
use standalone_policy_engine.Lexer.{Lexer, arrive, next_token, new_lexer}
use standalone_policy_engine.Lexer.Progress.{left, next_token_progress, next_token-le, is_eof}
use standalone_policy_engine.Parser.{
  Parser, Parsed, done, failed, P, bind, advance, expect_peek, new_parser, peek_token_is,
}

-- 1 for a token that is not the end of the text.
abbrev pub pending : TokenType → ℕ
pending k = if is_eof k then 0 else 1

abbrev pub weight : Parser → ℕ
weight p = left p.lexer + pending p.peek_token.kind + pending p.cur_token.kind

-- What a call of the scanner costs.
next_token_cost :
    (lib : Platform) (l : Lexer)
    → left (next_token lib l).1 + pending (next_token lib l).0.kind ≤ left l
next_token_cost lib l = elim (Bool-cases (is_eof (next_token lib l).0.kind)) [
  | inl e ↦ rw e (omega (arith, next_token-le lib l))
  | inr e ↦ rw e (omega (arith, next_token_progress lib l (λ k. let f = rw k at e in cc)))
]

pub weight-advance :
    (lib : Platform) (p : Parser) → weight (advance lib p) + pending p.cur_token.kind ≤ weight p
unfolding advance
weight-advance lib p = omega (arith, next_token_cost lib p.lexer)

left-new_lexer : (text : Text) → left (new_lexer text) ≡ length text
unfolding new_lexer arrive
left-new_lexer text = ground arith

pub weight-new_parser :
    (lib : Platform) (text : Text) → weight (new_parser lib (new_lexer text)) ≤ length text
unfolding new_parser
weight-new_parser lib text =
    let l = new_lexer text in
    omega
      (arith, next_token_cost lib l, next_token_cost lib (next_token lib l).1, left-new_lexer text)

-- An outcome that leaves at most `n` to read, and that is not out of fuel.
pub data Within {ℓ} {A : Type ℓ} (n : ℕ) : Parsed A → Type ℓ where
  finished : {a : A} {p : Parser} → weight p ≤ n → Within n (done a p)
  gave_up : {p : Parser} → weight p ≤ n → Within n (failed p)

pub bind-Within {ℓ κ} :
    {A : Type ℓ} {B : Type κ} {n m : ℕ} {o : Parsed A} {f : A → P B}
    → Within n o
    → n ≤ m
    → ((a : A) (p : Parser) → weight p ≤ n → Within m (f a p))
    → Within m (bind o f)
bind-Within (finished h) l k = k _ _ h
bind-Within (gave_up h) l k = gave_up (omega (arith, h, l))

pub Within-le {ℓ} : {A : Type ℓ} {n m : ℕ} {o : Parsed A} → Within n o → n ≤ m → Within m o
Within-le (finished h) l = finished (omega (arith, h, l))
Within-le (gave_up h) l = gave_up (omega (arith, h, l))

-- The token behind a test of the next one.
pub expect_peek-Within :
    (lib : Platform) (k : TokenType) (p : Parser) → Within (weight p) (expect_peek lib k p)
unfolding expect_peek
expect_peek-Within lib k p = elim (Bool-cases (peek_token_is k p)) [
  | inl e ↦ rw e (finished (omega (arith, weight-advance lib p)))
  | inr e ↦ rw e (gave_up (omega arith))
]
