-- ===== src/Revocations/Merging.antt =====
-- The order in which revocations arrive does not matter.
use standalone_policy_engine.Base.{
  ◌≡◌, refl, ap, ap₂, inl, inr, ◌||◌, Option, none, some, if◌then◌else◌, Bool-cases, Option-cases,
  arith,
}
use standalone_policy_engine.Base.Int.{ℤ, lt_int}
use standalone_policy_engine.Revocations.{
  RevocationKey, Revoked, RevocationRecord, Revocations, key_eq, load, merge, merge_into, unix,
  unix_nano, is_empty_text, apply_revocation,
}
use standalone_policy_engine.Revocations.Lookup.{load-store, key_eq_iff, key_eq_refl}

-- The record that stands for a revocation, if it is taken at this time.
abbrev taken : ℤ → RevocationRecord → Option (RevocationKey × Revoked)
taken now r =
    if is_empty_text r.tenant_id || is_empty_text r.grant_id then none else elim r.revoked_at [
      | none ↦ none
      | some t ↦
          if lt_int now r.expires_at
          then some (
            (r.tenant_id, r.grant_id),
            record { revoked_at = unix t; expires_at = unix_nano r.expires_at },
          )
          else none
    ]

abbrev add : Option (RevocationKey × Revoked) → Revocations → Revocations
add none m = m
add (some (k, r)) m = merge_into k r m

apply-add :
    (now : ℤ) (r : RevocationRecord) (m : Revocations)
    → (apply_revocation now r m).0 ≡ add (taken now r) m
unfolding apply_revocation
apply-add now r m = elim (Bool-cases (is_empty_text r.tenant_id || is_empty_text r.grant_id)) [
  | inl q ↦ rw (apply_revocation, q) refl
  | inr q ↦ elim (Option-cases r.revoked_at) [
    | inl n ↦ rw (apply_revocation, q, n) refl
    | inr (t, n) ↦ elim (Bool-cases (lt_int now r.expires_at)) [
      | inl l ↦ rw (apply_revocation, q, n, l) refl
      | inr l ↦ rw (apply_revocation, q, n, l) refl
    ]
  ]
]

abbrev joined : Revoked → Option Revoked → Revoked
joined r none = r
joined r (some x) = merge r x

load-merge_into :
    (k j : RevocationKey) (r : Revoked) (m : Revocations)
    → load (merge_into k r m) j ≡ (if key_eq k j then some (joined r (load m k)) else load m j)
unfolding merge_into
load-merge_into k j r m = elim (Option-cases (load m k)) [
  | inl q ↦ rw (merge_into, q) (load-store m k j r)
  | inr (x, q) ↦ rw (merge_into, q) (load-store m k j (merge r x))
]

Revoked_ext : (a b : Revoked) → a.revoked_at ≡ b.revoked_at → a.expires_at ≡ b.expires_at → a ≡ b
Revoked_ext a b p q = ap₂ (λ x y. record { revoked_at = x; expires_at = y }) p q

merge_comm : (a b : Revoked) → merge a b ≡ merge b a
unfolding merge
merge_comm a b = Revoked_ext (merge a b) (merge b a) (ground arith) (ground arith)

merge_swap : (a b c : Revoked) → merge a (merge b c) ≡ merge b (merge a c)
unfolding merge
merge_swap a b c =
    Revoked_ext (merge a (merge b c)) (merge b (merge a c)) (ground arith) (ground arith)

joined_swap :
    (a b : Revoked) (o : Option Revoked)
    → joined a (some (joined b o)) ≡ joined b (some (joined a o))
joined_swap a b none = merge_comm a b
joined_swap a b (some c) = merge_swap a b c

merge_into_swap :
    (k l j : RevocationKey) (a b : Revoked) (m : Revocations)
    → load (merge_into k a (merge_into l b m)) j ≡ load (merge_into l b (merge_into k a m)) j
merge_into_swap k l j a b m =
    rw
      (
        load-merge_into k j a (merge_into l b m),
        load-merge_into l k b m,
        load-merge_into l j b m,
        load-merge_into l j b (merge_into k a m),
        load-merge_into k l a m,
        load-merge_into k j a m,
      )
      (elim (Bool-cases (key_eq k l)) [
        | inl q ↦
            let e = (key_eq_iff k l).0 q in
            rw (e, key_eq_refl l)
              (elim (Bool-cases (key_eq l j)) [
                | inl s ↦ rw s (ap some (joined_swap a b (load m l)))
                | inr s ↦ rw s refl
              ])
        | inr q ↦ ground (arith, key_eq_iff k l, key_eq_iff l k, key_eq_iff k j, key_eq_iff l j)
      ])

add_swap :
    (x y : Option (RevocationKey × Revoked)) (m : Revocations) (j : RevocationKey)
    → load (add x (add y m)) j ≡ load (add y (add x m)) j
add_swap none y m j = refl
add_swap (some (k, a)) none m j = refl
add_swap (some (k, a)) (some (l, b)) m j = merge_into_swap k l j a b m

-- Two revocations leave the same record for every key, in whichever order ApplyRevocation takes
-- them, each at its own time: whatever they are of, and even where one of them is refused.
pub apply_revocation_swap :
    (now later : ℤ) (r s : RevocationRecord) (m : Revocations) (j : RevocationKey)
    → load (apply_revocation later s (apply_revocation now r m).0).0 j
      ≡ load (apply_revocation now r (apply_revocation later s m).0).0 j
apply_revocation_swap now later r s m j =
    rw
      (
        apply-add now r m,
        apply-add later s m,
        apply-add later s (add (taken now r) m),
        apply-add now r (add (taken later s) m),
      )
      (add_swap (taken later s) (taken now r) m j)
