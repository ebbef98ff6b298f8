-- ===== src/Redaction/Letters.antt =====
-- Texts up to the case of their letters, and the neighbours of a token, without the code's tests.
use standalone_policy_engine.Base.{
  ℕ, ◌+◌, ◌≤◌, ◌≡◌, ◌↔◌, ◌⊎◌, refl, Option, none, some, true, [], ◌∷◌, map, arith,
}
use standalone_policy_engine.Base.Text.{Text}
use standalone_policy_engine.Redaction.{lower_ascii, is_outside}

abbrev IsUpper : ℕ → Type 0
IsUpper c = (65 ≤ c) × (c ≤ 90)

-- The same byte, or a letter of ASCII in its two cases.
abbrev pub SameLetter : ℕ → ℕ → Type 0
SameLetter a b = (a ≡ b) ⊎ ((IsUpper a × (b ≡ a + 32)) ⊎ (IsUpper b × (a ≡ b + 32)))

abbrev pub SameWord : Text → Text → Type 0
SameWord [] [] = Unit {0}
SameWord [] (b ∷ t) = ⊥
SameWord (a ∷ s) [] = ⊥
SameWord (a ∷ s) (b ∷ t) = SameLetter a b × SameWord s t

-- No byte, a dot, an underscore or a dash.
abbrev pub IsOutside : Option ℕ → Type 0
IsOutside none = Unit {0}
IsOutside (some c) = (c ≡ 46) ⊎ ((c ≡ 95) ⊎ (c ≡ 45))

lower-SameLetter : (a b : ℕ) → lower_ascii a ≡ lower_ascii b → SameLetter a b
lower-SameLetter a b h = ground arith

SameLetter-lower : (a b : ℕ) → SameLetter a b → lower_ascii a ≡ lower_ascii b
SameLetter-lower a b h = ground arith

pub lower-SameWord : (s t : Text) → map lower_ascii s ≡ map lower_ascii t → SameWord s t
lower-SameWord [] [] h = tt
lower-SameWord [] (b ∷ t) h = cc
lower-SameWord (a ∷ s) [] h = cc
lower-SameWord (a ∷ s) (b ∷ t) h =
    let e : lower_ascii a ≡ lower_ascii b = cc in
    let k : map lower_ascii s ≡ map lower_ascii t = cc in
    (lower-SameLetter a b e, lower-SameWord s t k)

pub SameWord-lower : (s t : Text) → SameWord s t → map lower_ascii s ≡ map lower_ascii t
SameWord-lower [] [] h = refl
SameWord-lower [] (b ∷ t) h = absurd h
SameWord-lower (a ∷ s) [] h = absurd h
SameWord-lower (a ∷ s) (b ∷ t) (e, k) = λ i. SameLetter-lower a b e i ∷ SameWord-lower s t k i

pub is_outside_iff : (o : Option ℕ) → (is_outside o ≡ true) ↔ IsOutside o
is_outside_iff none = (λ h. tt, λ h. refl)
is_outside_iff (some c) = ground arith
