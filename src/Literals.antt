-- ===== src/Literals.antt =====
-- The literal readers of internal/engine/evaluator.go: clock times and dotted IPv4 addresses.
pub mod Clock
pub mod Address
use standalone_policy_engine.Base.{
  ℕ, zero, suc, ◌+◌, ◌*◌, ◌-◌, ◌%◌, Bool, true, false, ◌&&◌, ◌||◌, Option, none, some, List, [],
  ◌∷◌, ◌++◌, length, if◌then◌else◌, ltb, leb, ◌==◌,
}
use standalone_policy_engine.Base.Int.{ℤ, pos}
use standalone_policy_engine.Base.Text.{Text}
use standalone_policy_engine.Platform.{Platform, is_digit, v4_in_v6_prefix}

-- strings.TrimSuffix(s, "Z")
unfoldable pub trim_suffix_z : Text → Text
trim_suffix_z [] = []
trim_suffix_z (c ∷ []) = if c == b'Z' then [] else c ∷ []
trim_suffix_z (c ∷ d ∷ s) = c ∷ trim_suffix_z (d ∷ s)

-- s[i] - '0', on bytes
abbrev pub byte_digit : ℕ → ℕ
byte_digit c = (c + 256 - 48) % 256

abbrev pub digit_ok : ℕ → Bool
digit_ok c = leb (byte_digit c) 9

abbrev pub two_digits : ℕ → ℕ → ℕ
two_digits a b = byte_digit a * 10 + byte_digit b

unfoldable pub read_hms : ℕ → ℕ → ℕ → Option ℕ
read_hms h m sec =
    if ltb h 24 && (ltb m 60 && ltb sec 60) then some (h * 3600 + m * 60 + sec) else none

-- The part of parseFastTime after the trimmed suffix.
unfoldable pub read_clock : Text → Option ℕ
read_clock (h0 ∷ h1 ∷ c ∷ m0 ∷ m1 ∷ []) =
    if c == b':' && (digit_ok h0 && (digit_ok h1 && (digit_ok m0 && digit_ok m1)))
    then read_hms (two_digits h0 h1) (two_digits m0 m1) 0
    else none
read_clock (h0 ∷ h1 ∷ c ∷ m0 ∷ m1 ∷ d ∷ s0 ∷ s1 ∷ []) =
    if c == b':'
      && (d == b':'
          && (digit_ok h0
              && (digit_ok h1 && (digit_ok m0 && (digit_ok m1 && (digit_ok s0 && digit_ok s1))))))
    then read_hms (two_digits h0 h1) (two_digits m0 m1) (two_digits s0 s1)
    else none
read_clock _ = none

unfoldable pub parse_fast_time : Text → Option ℕ
parse_fast_time s = read_clock (trim_suffix_z s)

-- tryParseDateTimeOrTime of the evaluator
unfoldable pub parse_date_time : Platform → Text → Option ℤ
parse_date_time lib s = elim (parse_fast_time s) [
  | some t ↦ some (pos t)
  | none ↦ lib.parse_rfc3339 s
]

-- The state of the loop of parseIPv4FastInto: p[:n], val and digits.
pub record Octets : Type 0 where
  pub p : List ℕ
  pub val : ℕ
  pub digits : ℕ

-- One byte; none is the early `return nil`.
unfoldable pub octet_step : ℕ → Octets → Option Octets
octet_step c s =
    if is_digit c
    then (let val = s.val * 10 + (c - 48) in
        if ltb 255 val || ltb 3 (s.digits + 1)
        then none
        else some (record { p = s.p; val = val; digits = s.digits + 1 }))
    else if c == b'.'
    then (if s.digits == 0 || leb 3 (length s.p)
        then none
        else some (record { p = s.p ++ s.val ∷ []; val = 0; digits = 0 }))
    else none

unfoldable pub octet_loop : Text → Octets → Option Octets
octet_loop [] s = some s
octet_loop (c ∷ t) s = elim (octet_step c s) [ none ↦ none | some s' ↦ octet_loop t s' ]

unfoldable pub parse_ipv4_fast_into : Platform → Text → Option (List ℕ)
parse_ipv4_fast_into lib s = elim (octet_loop s (record { p = []; val = 0; digits = 0 })) [
  | none ↦ none
  | some o ↦
      if (if length o.p == 3 then false else true) || o.digits == 0
      then lib.parse_ip s
      else some (v4_in_v6_prefix ++ (o.p ++ o.val ∷ []))
]
