-- ===== src/Redaction/Starts.antt =====
-- The loops of internal/audit/redaction.go over the starts of a text.
use standalone_policy_engine.Base.{
  ℕ, ◌≤◌, ◌≡◌, refl, ap, inl, inr, Bool, true, Option, some, [], ◌∷◌, ◌++◌, length, drop, map,
  Bool-cases, length-append, arith,
}
use standalone_policy_engine.Base.Text.{Text}
use standalone_policy_engine.Redaction.{lower_ascii, matches_fold, any_start}

-- A word at the front of a text, whatever its case.
pub record StartsWith (rest fragment : Text) : Type 0 where
  pub word : Text
  pub after : Text
  pub split : rest ≡ word ++ after
  pub same : map lower_ascii word ≡ map lower_ascii fragment
  pub past : drop (length fragment) rest ≡ after
  pub long : length fragment ≤ length rest

pub matches_fold-StartsWith :
    (rest fragment : Text) → matches_fold rest fragment ≡ true → StartsWith rest fragment
unfolding matches_fold
matches_fold-StartsWith rest [] h = record {
  word = [];
  after = rest;
  split = refl;
  same = refl;
  past = refl;
  long = omega arith;
}
matches_fold-StartsWith [] (b ∷ fragment) h = cc
matches_fold-StartsWith (a ∷ rest) (b ∷ fragment) h =
    let e : lower_ascii a ≡ lower_ascii b = ground arith in
    let k : matches_fold rest fragment ≡ true = ground arith in
    let s = matches_fold-StartsWith rest fragment k in
    record {
      word = a ∷ s.word;
      after = s.after;
      split = ap (λ z. a ∷ z) s.split;
      same = λ i. e i ∷ s.same i;
      past = s.past;
      long = omega (arith, s.long);
    }

pub word-matches_fold :
    (word after fragment : Text)
    → map lower_ascii word ≡ map lower_ascii fragment
    → matches_fold (word ++ after) fragment ≡ true
unfolding matches_fold
word-matches_fold [] after [] h = refl
word-matches_fold (a ∷ word) after [] h = cc
word-matches_fold [] after (b ∷ fragment) h = cc
word-matches_fold (a ∷ word) after (b ∷ fragment) h =
    let e : lower_ascii a ≡ lower_ascii b = cc in
    let t : map lower_ascii word ≡ map lower_ascii fragment = cc in
    ground (arith, e, word-matches_fold word after fragment t)

pub drop-word :
    (word after fragment : Text)
    → map lower_ascii word ≡ map lower_ascii fragment
    → drop (length fragment) (word ++ after) ≡ after
drop-word [] after [] h = refl
drop-word (a ∷ word) after [] h = cc
drop-word [] after (b ∷ fragment) h = cc
drop-word (a ∷ word) after (b ∷ fragment) h =
    let t : map lower_ascii word ≡ map lower_ascii fragment = cc in drop-word word after fragment t

-- The byte before a start.
abbrev pub last_of : Option ℕ → Text → Option ℕ
last_of before [] = before
last_of before (c ∷ s) = last_of (some c) s

pub record Starts (size : ℕ) (found : Option ℕ → Text → Bool) (before : Option ℕ) (value : Text)
    : Type 0 where
  pub front : Text
  pub rest : Text
  pub split : value ≡ front ++ rest
  pub long : size ≤ length rest
  pub holds : found (last_of before front) rest ≡ true

pub any_start-Starts :
    (size : ℕ) (found : Option ℕ → Text → Bool) (before : Option ℕ) (value : Text)
    → any_start size found before value ≡ true
    → Starts size found before value
unfolding any_start
any_start-Starts size found before [] h =
    let k : found before [] ≡ true = ground arith in
    record { front = []; rest = []; split = refl; long = ground arith; holds = k }
any_start-Starts size found before (c ∷ value) h = elim (Bool-cases (found before (c ∷ value))) [
  | inl q ↦ record { front = []; rest = c ∷ value; split = refl; long = ground arith; holds = q }
  | inr q ↦
      let k : any_start size found (some c) value ≡ true = ground (arith, q) in
      let s = any_start-Starts size found (some c) value k in
      record {
        front = c ∷ s.front;
        rest = s.rest;
        split = ap (λ z. c ∷ z) s.split;
        long = s.long;
        holds = s.holds;
      }
]

pub start-any_start :
    (size : ℕ) (found : Option ℕ → Text → Bool) (before : Option ℕ) (front rest : Text)
    → size ≤ length rest
    → found (last_of before front) rest ≡ true
    → any_start size found before (front ++ rest) ≡ true
unfolding any_start
start-any_start size found before [] [] l h = ground arith
start-any_start size found before [] (c ∷ rest) l h = ground arith
start-any_start size found before (c ∷ front) rest l h =
    let k = start-any_start size found (some c) front rest l h in
    ground (arith, k, length-append front rest)
