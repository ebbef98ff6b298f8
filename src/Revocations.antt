-- ===== src/Revocations.antt =====
-- The revocations of delegated grants in internal/security/delegation.go. A time is in nanoseconds
-- since 1970, before or after it and without bounds, and the zero time is none; UnixNano makes an
-- int64 of it, which wraps around. The concurrent map is an association list; each of its
-- atomic operations is one step, and the loop that merges a record ends with one of them.
pub mod Lookup
pub mod Times
pub mod Distant
pub mod InForce
pub mod Merging
use standalone_policy_engine.Base.{
  ℕ, ◌+◌, ◌-◌, ◌/◌, ◌%◌, ◌^◌, Bool, true, false, not, ◌&&◌, ◌||◌, Option, none, some, List, [], ◌∷◌,
  ◌++◌, keep_if, if◌then◌else◌, ltb, leb, ◌==◌,
}
use standalone_policy_engine.Base.Int.{ℤ, pos, negsuc, eq_int, lt_int}
use standalone_policy_engine.Base.Text.{Text, text_eq}

-- revocationKey: the tenant and the grant
abbrev pub RevocationKey : Type 0
RevocationKey = Text × Text

-- revocationRecord: int64 values, in seconds and in nanoseconds
pub record Revoked : Type 0 where
  pub revoked_at : ℤ
  pub expires_at : ℤ

pub record RevocationRecord : Type 0 where
  pub tenant_id : Text
  pub grant_id : Text
  pub revoked_at : Option ℤ
  pub expires_at : ℤ

abbrev pub Revocations : Type 0
Revocations = List (RevocationKey × Revoked)

unfoldable pub key_eq : RevocationKey → RevocationKey → Bool
key_eq a b = text_eq a.0 b.0 && text_eq a.1 b.1

abbrev pub revoked_eq : Revoked → Revoked → Bool
revoked_eq a b = eq_int a.revoked_at b.revoked_at && eq_int a.expires_at b.expires_at

-- Load
unfoldable pub load : Revocations → RevocationKey → Option Revoked
load [] k = none
load ((j, r) ∷ m) k = let rest = load m k in if key_eq j k then some r else rest

-- A store for the key, by LoadOrStore or by CompareAndSwap.
unfoldable pub store : RevocationKey → Revoked → Revocations → Revocations
store k r m = (k, r) ∷ keep_if (λ e. not (key_eq e.0 k)) m

unfoldable pub compare_and_delete : RevocationKey → Revoked → Revocations → Revocations
compare_and_delete k old m = elim (load m k) [
  | none ↦ m
  | some current ↦ if revoked_eq current old then keep_if (λ e. not (key_eq e.0 k)) m else m
]

unfoldable pub merge : Revoked → Revoked → Revoked
merge incoming current = record {
  revoked_at =
      if lt_int incoming.revoked_at current.revoked_at
      then incoming.revoked_at
      else current.revoked_at;
  expires_at =
      if lt_int current.expires_at incoming.expires_at
      then incoming.expires_at
      else current.expires_at;
}

unfoldable pub merge_into : RevocationKey → Revoked → Revocations → Revocations
merge_into k incoming m = elim (load m k) [
  | none ↦ store k incoming m
  | some current ↦ store k (merge incoming current) m
]

abbrev pub second : ℕ
second = 1000000000

abbrev pub is_empty_text : Text → Bool
is_empty_text [] = true
is_empty_text (c ∷ s) = false

-- Time.Unix, rounded down
abbrev pub unix : ℤ → ℤ
unix (pos n) = pos (n / second)
unix (negsuc n) = negsuc (n / second)

-- Time.UnixNano: the low 64 bits, as an int64.
abbrev pub to_int64 : ℕ → ℤ
to_int64 u = if ltb u (2 ^ 63) then pos u else negsuc (2 ^ 64 - 1 - u)

abbrev pub unix_nano : ℤ → ℤ
unix_nano (pos n) = to_int64 (n % 2 ^ 64)
unix_nano (negsuc n) = to_int64 (2 ^ 64 - 1 - n % 2 ^ 64)

-- ApplyRevocation, where the clock reads `now`: the map after it, and what it returns.
unfoldable pub apply_revocation : ℤ → RevocationRecord → Revocations → Revocations × Bool
apply_revocation now r m =
    if is_empty_text r.tenant_id || is_empty_text r.grant_id
    then (m, false)
    else elim r.revoked_at [
      | none ↦ (m, false)
      | some t ↦
          if lt_int now r.expires_at
          then (
            merge_into (r.tenant_id, r.grant_id)
                (record { revoked_at = unix t; expires_at = unix_nano r.expires_at }) m,
            true,
          )
          else (m, false)
    ]

-- IsRevoked, where the clock reads `now`.
unfoldable pub is_revoked : ℤ → Text → Text → Revocations → Revocations × Bool
is_revoked now tenant grant m =
    if is_empty_text tenant || is_empty_text grant
    then (m, false)
    else elim (load m (tenant, grant)) [
      | none ↦ (m, false)
      | some r ↦
          if not (lt_int (unix_nano now) r.expires_at)
          then (compare_and_delete (tenant, grant) r m, false)
          else (m, true)
    ]

-- The argument is the nanoseconds of a clock, as an int64.
unfoldable pub cleanup_expired : ℤ → Revocations → Revocations
cleanup_expired now m = keep_if (λ e. lt_int now e.1.expires_at) m

-- Time.Add of a positive duration
abbrev pub add_nanos : ℤ → ℕ → ℤ
add_nanos (pos n) d = pos (n + d)
add_nanos (negsuc n) d = if ltb n d then pos (d - n - 1) else negsuc (n - d)

-- Revoke, with the manager's time to live: the map after it. The clock is read again, as `later`,
-- by ApplyRevocation.
unfoldable pub revoke : ℤ → ℤ → ℕ → Text → Text → Revocations → Revocations
revoke now later ttl tenant grant m =
    (apply_revocation later
      (record {
        tenant_id = tenant;
        grant_id = grant;
        revoked_at = some now;
        expires_at = add_nanos now ttl;
      })
      (cleanup_expired (unix_nano now) m)).0

-- ClearRevocations
unfoldable pub clear_revocations : Revocations → Revocations
clear_revocations m = []
