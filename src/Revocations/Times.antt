-- ===== src/Revocations/Times.antt =====
-- The order of int64 times, and UnixNano within and beyond their range.
use standalone_policy_engine.Base.{ℕ, ◌-◌, ◌<◌, ◌≤◌, ◌≡◌, ◌^◌, true, false, if◌then◌else◌, arith}
use standalone_policy_engine.Base.Int.{ℤ, pos, negsuc, lt_int}
use standalone_policy_engine.Revocations.{unix_nano}

pub lt_int_irrefl : (a : ℤ) → lt_int a a ≡ false
lt_int_irrefl a = ground arith

pub gone-lt : (a b c : ℤ) → lt_int a b ≡ false → lt_int a c ≡ true → lt_int b c ≡ true
gone-lt a b c h k = ground arith

pub lt-lasting : (a b c : ℤ) → lt_int a b ≡ true → lt_int c b ≡ false → lt_int a c ≡ true
lt-lasting a b c h k = ground arith

-- The later of two expiries.
pub later-lasting :
    (a b e : ℤ) → lt_int b e ≡ false → lt_int (if lt_int b a then a else b) e ≡ false
later-lasting a b e h = ground arith

pub merged-lasting : (a b : ℤ) → lt_int (if lt_int b a then a else b) a ≡ false
merged-lasting a b = ground arith

pub unix_nano_small : (n : ℕ) → n < 2 ^ 63 → unix_nano (pos n) ≡ pos n
unix_nano_small n h = ground arith

-- A time from the year 2262 on, up to the year 2554, has negative nanoseconds.
pub unix_nano_distant :
    (n : ℕ) → 2 ^ 63 ≤ n → n < 2 ^ 64 → unix_nano (pos n) ≡ negsuc (2 ^ 64 - 1 - n)
unix_nano_distant n h k = ground arith
