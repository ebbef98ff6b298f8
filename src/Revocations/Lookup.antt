-- ===== src/Revocations/Lookup.antt =====
-- What the map has for a key after a store, a deletion and a clean-up.
use standalone_policy_engine.Base.{
  ◌≡◌, ◌↔◌, refl, ap₂, true, not, none, some, [], ◌∷◌, keep_if, if◌then◌else◌, arith,
}
use standalone_policy_engine.Base.Int.{ℤ, lt_int}
use standalone_policy_engine.Base.Text.{text_eq, text_eq_iff, text_eq_refl}
use standalone_policy_engine.Revocations.{
  RevocationKey, Revoked, Revocations, key_eq, load, store, cleanup_expired,
}

pub key_eq_refl : (a : RevocationKey) → key_eq a a ≡ true
unfolding key_eq
key_eq_refl a = rw (text_eq_refl a.0, text_eq_refl a.1) refl

key_eq_forward : (a b : RevocationKey) → key_eq a b ≡ true → a ≡ b
unfolding key_eq
key_eq_forward a b h =
    let (x, y) : (text_eq a.0 b.0 ≡ true) × (text_eq a.1 b.1 ≡ true) = ground arith in
    ap₂ (λ s t. (s, t)) ((text_eq_iff a.0 b.0).0 x) ((text_eq_iff a.1 b.1).0 y)

pub key_eq_iff : (a b : RevocationKey) → (key_eq a b ≡ true) ↔ (a ≡ b)
key_eq_iff a b = (key_eq_forward a b, λ e. rw e (key_eq_refl b))

pub load-without :
    (m : Revocations) (k j : RevocationKey)
    → load (keep_if (λ e. not (key_eq e.0 k)) m) j ≡ (if key_eq k j then none else load m j)
unfolding load
load-without [] k j = ground arith
load-without ((i, r) ∷ m) k j =
    ground (arith, load-without m k j, key_eq_iff i k, key_eq_iff k j, key_eq_iff i j)

pub load-store :
    (m : Revocations) (k j : RevocationKey) (r : Revoked)
    → load (store k r m) j ≡ (if key_eq k j then some r else load m j)
unfolding load store
load-store m k j r = ground (arith, load-without m k j)

pub load-cleanup :
    (now : ℤ) (m : Revocations) (k : RevocationKey) (r : Revoked)
    → load m k ≡ some r
    → lt_int now r.expires_at ≡ true
    → load (cleanup_expired now m) k ≡ some r
unfolding load cleanup_expired
load-cleanup now [] k r h l = h
load-cleanup now ((j, x) ∷ m) k r h l = ground (arith, load-cleanup now m k r)
