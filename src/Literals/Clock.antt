-- ===== src/Literals/Clock.antt =====
-- parseFastTime: its bounds, and the times of day that it reads.
use standalone_policy_engine.Base.{
  ℕ, ◌+◌, ◌*◌, ◌/◌, ◌%◌, ◌<◌, ◌≡◌, refl, true, some, [], ◌∷◌, ◌++◌, arith,
}
use standalone_policy_engine.Base.Text.{Text}
use standalone_policy_engine.Literals.{
  trim_suffix_z, byte_digit, digit_ok, two_digits, read_hms, read_clock, parse_fast_time,
}

read_hms-lt : (h m sec t : ℕ) → read_hms h m sec ≡ some t → t < 86400
unfolding read_hms
read_hms-lt h m sec t e = ground arith

read_clock-lt : (s : Text) (t : ℕ) → read_clock s ≡ some t → t < 86400
unfolding read_clock
read_clock-lt (h0 ∷ h1 ∷ c ∷ m0 ∷ m1 ∷ []) t e =
    ground (arith, read_hms-lt (two_digits h0 h1) (two_digits m0 m1) 0 t)
read_clock-lt (h0 ∷ h1 ∷ c ∷ m0 ∷ m1 ∷ d ∷ s0 ∷ s1 ∷ []) t e =
    ground (arith, read_hms-lt (two_digits h0 h1) (two_digits m0 m1) (two_digits s0 s1) t)
read_clock-lt _ t e = cc

-- A time that parseFastTime returns is a second of the day.
pub parse_fast_time-lt : (s : Text) (t : ℕ) → parse_fast_time s ≡ some t → t < 86400
unfolding parse_fast_time
parse_fast_time-lt s t e = read_clock-lt (trim_suffix_z s) t e

-- Two decimal digits.
abbrev pub write_two : ℕ → Text
write_two n = (48 + n / 10) ∷ (48 + n % 10) ∷ []

-- HH:MM:SS
abbrev pub write_hms : ℕ → ℕ → ℕ → Text
write_hms h m s = write_two h ++ (58 ∷ (write_two m ++ (58 ∷ write_two s)))

byte_digit-write : (d : ℕ) → d < 10 → byte_digit (48 + d) ≡ d
byte_digit-write d h = omega arith

two_digits-write : (n : ℕ) → n < 100 → two_digits (48 + n / 10) (48 + n % 10) ≡ n
two_digits-write n h = omega arith

digit_ok-write : (d : ℕ) → d < 10 → digit_ok (48 + d) ≡ true
digit_ok-write d h = ground arith

read_clock-write :
    (h m s : ℕ)
    → h < 24
    → m < 60
    → s < 60
    → read_clock (write_hms h m s) ≡ some (h * 3600 + m * 60 + s)
unfolding read_clock read_hms
read_clock-write h m s hh hm hs =
    rw
      (
        digit_ok-write (h / 10) (omega arith),
        digit_ok-write (h % 10) (omega arith),
        digit_ok-write (m / 10) (omega arith),
        digit_ok-write (m % 10) (omega arith),
        digit_ok-write (s / 10) (omega arith),
        digit_ok-write (s % 10) (omega arith),
      )
      (ground (arith, two_digits-write h, two_digits-write m, two_digits-write s))

trim-write : (h m s : ℕ) → trim_suffix_z (write_hms h m s) ≡ write_hms h m s
unfolding trim_suffix_z
trim-write h m s = ground arith

trim-write_z : (h m s : ℕ) → trim_suffix_z (write_hms h m s ++ b'Z' ∷ []) ≡ write_hms h m s
unfolding trim_suffix_z
trim-write_z h m s = refl

-- A time of day written as HH:MM:SS, with or without a final Z, is read back as its second of the
-- day.
pub parse_fast_time-write :
    (h m s : ℕ)
    → h < 24
    → m < 60
    → s < 60
    → (parse_fast_time (write_hms h m s) ≡ some (h * 3600 + m * 60 + s))
      × (parse_fast_time (write_hms h m s ++ b'Z' ∷ []) ≡ some (h * 3600 + m * 60 + s))
unfolding parse_fast_time
parse_fast_time-write h m s hh hm hs = (
  rw (trim-write h m s) (read_clock-write h m s hh hm hs),
  rw (trim-write_z h m s) (read_clock-write h m s hh hm hs),
)
