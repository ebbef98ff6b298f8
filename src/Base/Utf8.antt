-- ===== src/Base/Utf8.antt =====
-- Go's conversions between a string and its runes, in UTF-8.
use Prim.Native.Nat.{ℕ, zero, suc, ◌+◌, ◌-◌, ◌*◌, ◌/◌, ◌%◌}
use mathlib.Core.Bool.{Bool, true, false, ◌&&◌, ◌||◌}
use mathlib.Core.List.{List, [], ◌∷◌}
use mathlib.Core.Option.{Option, none, some}
use standalone_policy_engine.Base.Tests.{if◌then◌else◌, ltb, leb}
use standalone_policy_engine.Base.Lists.{length, flat_map}
use standalone_policy_engine.Base.Text.{Text}

-- U+FFFD, for what is no rune
abbrev pub rune_error : ℕ
rune_error = 65533

abbrev between : ℕ → ℕ → ℕ → Bool
between low high c = leb low c && leb c high

-- The bits of a first byte, and the ranges of the bytes that must follow it; none for a byte that
-- starts no rune.
unfoldable pub first_byte : ℕ → Option (ℕ × List (ℕ × ℕ))
first_byte c =
    if ltb c 128
    then some (c, [])
    else if between 194 223 c
    then some (c - 192, (128, 191) ∷ [])
    else if between 224 224 c
    then some (0, (160, 191) ∷ (128, 191) ∷ [])
    else if between 237 237 c
    then some (13, (128, 159) ∷ (128, 191) ∷ [])
    else if between 225 239 c
    then some (c - 224, (128, 191) ∷ (128, 191) ∷ [])
    else if between 240 240 c
    then some (0, (144, 191) ∷ (128, 191) ∷ (128, 191) ∷ [])
    else if between 241 243 c
    then some (c - 240, (128, 191) ∷ (128, 191) ∷ (128, 191) ∷ [])
    else if between 244 244 c
    then some (4, (128, 143) ∷ (128, 191) ∷ (128, 191) ∷ [])
    else none

unfoldable pub following : ℕ → List (ℕ × ℕ) → Text → Option ℕ
following bits [] s = some bits
following bits (r ∷ rs) [] = none
following bits (r ∷ rs) (c ∷ s) =
    let rest = following (bits * 64 + (c - 128)) rs s in if between r.0 r.1 c then rest else none

-- The rune that starts with a byte, and the number of its other bytes.
unfoldable pub decode_rune : ℕ → Text → Option (ℕ × ℕ)
decode_rune c s = elim (first_byte c) [
  | none ↦ none
  | some (bits, rs) ↦ elim (following bits rs s) [ none ↦ none | some r ↦ some (r, length rs) ]
]

-- A byte that starts no rune is one of its own.
abbrev pub or_error : Option (ℕ × ℕ) → ℕ × ℕ
or_error none = (rune_error, 0)
or_error (some r) = r

-- The runes behind the next `skip` bytes.
unfoldable pub runes_from : ℕ → Text → List ℕ
runes_from skip [] = []
runes_from (suc skip) (c ∷ s) = runes_from skip s
runes_from zero (c ∷ s) =
    let r = or_error (decode_rune c s) in let rest = runes_from r.1 s in r.0 ∷ rest

-- []rune(s)
unfoldable pub runes_of : Text → List ℕ
runes_of s = runes_from 0 s

-- A byte that goes on with the last six bits.
abbrev last_byte : ℕ → ℕ
last_byte r = 128 + r % 64

unfoldable pub encode_rune : ℕ → Text
encode_rune r =
    if ltb r 128
    then r ∷ []
    else if ltb r 2048
    then (192 + r / 64) ∷ last_byte r ∷ []
    else if between 55296 57343 r || ltb 1114111 r
    then 239 ∷ 191 ∷ 189 ∷ []
    else if ltb r 65536
    then (224 + r / 4096) ∷ last_byte (r / 64) ∷ last_byte r ∷ []
    else (240 + r / 262144) ∷ last_byte (r / 4096) ∷ last_byte (r / 64) ∷ last_byte r ∷ []

-- string(runes)
unfoldable pub of_runes : List ℕ → Text
of_runes rs = flat_map encode_rune rs

-- utf8.ValidString, behind the next `skip` bytes
unfoldable pub valid_from : ℕ → Text → Bool
valid_from skip [] = true
valid_from (suc skip) (c ∷ s) = valid_from skip s
valid_from zero (c ∷ s) = elim (decode_rune c s) [ none ↦ false | some r ↦ valid_from r.1 s ]

unfoldable pub is_utf8 : Text → Bool
is_utf8 s = valid_from 0 s
