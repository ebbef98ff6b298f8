-- ===== src/Revocations/InForce.antt =====
-- A revocation stays in force until it expires.
use standalone_policy_engine.Base.{
  ℕ, ◌<◌, ◌≤◌, ◌≡◌, ◌^◌, refl, sym, ap, ◌∙◌, inl, inr, true, false, ◌||◌, some, Bool-cases,
  Option-cases, arith,
}
use standalone_policy_engine.Base.Int.{ℤ, pos, lt_int, eq_int, eq_int_iff}
use standalone_policy_engine.Base.Text.{Text}
use standalone_policy_engine.Revocations.{
  RevocationKey, Revoked, RevocationRecord, Revocations, key_eq, revoked_eq, load, store,
  compare_and_delete, merge, merge_into, is_empty_text, apply_revocation, is_revoked,
  cleanup_expired, unix_nano,
}
use standalone_policy_engine.Revocations.Times.{
  lt_int_irrefl, gone-lt, lt-lasting, later-lasting, merged-lasting, unix_nano_small,
}
use standalone_policy_engine.Revocations.Lookup.{
  key_eq_refl, key_eq_iff, load-without, load-store, load-cleanup,
}

-- The key is revoked at least until `e`.
pub record IsInForce (k : RevocationKey) (e : ℤ) (m : Revocations) : Type 0 where
  pub current : Revoked
  pub found : load m k ≡ some current
  pub lasting : lt_int current.expires_at e ≡ false

-- The steps after a revocation, in any interleaving: no question, clean-up or deletion reads a clock
-- later than `limit`, and a deletion is of a record that was loaded before and had expired.
pub data Steps (limit : ℕ) (m : Revocations) : Revocations → Type 0 where
  start : Steps limit m m
  applied :
      {n : Revocations} (now : ℤ) (r : RevocationRecord)
      → Steps limit m n
      → Steps limit m (apply_revocation now r n).0
  asked :
      {n : Revocations} (now : ℕ) (tenant grant : Text)
      → now ≤ limit
      → Steps limit m n
      → Steps limit m (is_revoked (pos now) tenant grant n).0
  cleaned :
      {n : Revocations} (now : ℕ)
      → now ≤ limit
      → Steps limit m n
      → Steps limit m (cleanup_expired (unix_nano (pos now)) n)
  deleted :
      {n : Revocations} (now : ℕ) (k : RevocationKey) (old : Revoked)
      → lt_int (unix_nano (pos now)) old.expires_at ≡ false
      → now ≤ limit
      → Steps limit m n
      → Steps limit m (compare_and_delete k old n)

revoked_eq-expires_at : (a b : Revoked) → revoked_eq a b ≡ true → a.expires_at ≡ b.expires_at
revoked_eq-expires_at a b h =
    let k : eq_int a.expires_at b.expires_at ≡ true = ground arith in
    (eq_int_iff a.expires_at b.expires_at).0 k

store-IsInForce :
    (k j : RevocationKey) (e : ℤ) (r : Revoked) (m : Revocations)
    → IsInForce k e m
    → (key_eq j k ≡ true → lt_int r.expires_at e ≡ false)
    → IsInForce k e (store j r m)
store-IsInForce k j e r m v h = elim (Bool-cases (key_eq j k)) [
  | inl q ↦ record { current = r; found = load-store m j k r ∙ rw q refl; lasting = h q }
  | inr q ↦ record {
    current = v.current;
    found = load-store m j k r ∙ rw q v.found;
    lasting = v.lasting;
  }
]

merge_into-IsInForce :
    (k j : RevocationKey) (e : ℤ) (r : Revoked) (m : Revocations)
    → IsInForce k e m
    → IsInForce k e (merge_into j r m)
unfolding merge_into merge
merge_into-IsInForce k j e r m v = elim (Option-cases (load m j)) [
  | inl q ↦
      rw (merge_into, q)
        (store-IsInForce k j e r m v
          λ s. let g = v.found in let t = (key_eq_iff j k).0 s in let u = rw t at q in cc)
  | inr (x, q) ↦
      rw (merge_into, q)
        (store-IsInForce k j e (merge r x) m v λ s.
          let t = (key_eq_iff j k).0 s in
          let u = rw t at q in
          let same : v.current ≡ x = let g = v.found in cc in
          let l = ap (λ z. lt_int z.expires_at e) (sym same) ∙ v.lasting in
          later-lasting r.expires_at x.expires_at e l)
]

delete-IsInForce :
    (k j : RevocationKey) (e : ℤ) (old : Revoked) (m : Revocations)
    → IsInForce k e m
    → lt_int old.expires_at e ≡ true
    → IsInForce k e (compare_and_delete j old m)
unfolding compare_and_delete
delete-IsInForce k j e old m v h = elim (Option-cases (load m j)) [
  | inl q ↦ rw (compare_and_delete, q) v
  | inr (x, q) ↦ elim (Bool-cases (revoked_eq x old)) [
    | inr s ↦ rw (compare_and_delete, q, s) v
    | inl s ↦
        rw (compare_and_delete, q, s)
          (elim (Bool-cases (key_eq j k)) [
            | inr t ↦ record {
              current = v.current;
              found = load-without m j k ∙ rw t v.found;
              lasting = v.lasting;
            }
            | inl t ↦
                let u = (key_eq_iff j k).0 t in
                let w = rw u at q in
                let same : v.current ≡ x = let g = v.found in cc in
                let gone = revoked_eq-expires_at x old s in
                let l = ap (λ z. lt_int z.expires_at e) (sym same) ∙ v.lasting in
                let b = ap (λ z. lt_int z e) gone ∙ h in cc
          ])
  ]
]

apply-IsInForce :
    (now : ℤ) (r : RevocationRecord) (k : RevocationKey) (e : ℤ) (m : Revocations)
    → IsInForce k e m
    → IsInForce k e (apply_revocation now r m).0
unfolding apply_revocation
apply-IsInForce now r k e m v =
    elim (Bool-cases (is_empty_text r.tenant_id || is_empty_text r.grant_id)) [
      | inl q ↦ rw (apply_revocation, q) v
      | inr q ↦ elim (Option-cases r.revoked_at) [
        | inl n ↦ rw (apply_revocation, q, n) v
        | inr (t, n) ↦ elim (Bool-cases (lt_int now r.expires_at)) [
          | inl l ↦
              rw (apply_revocation, q, n, l)
                (merge_into-IsInForce k (r.tenant_id, r.grant_id) e _ m v)
          | inr l ↦ rw (apply_revocation, q, n, l) v
        ]
      ]
    ]

asked-IsInForce :
    (now : ℤ) (tenant grant : Text) (k : RevocationKey) (e : ℤ) (m : Revocations)
    → IsInForce k e m
    → lt_int (unix_nano now) e ≡ true
    → IsInForce k e (is_revoked now tenant grant m).0
unfolding is_revoked
asked-IsInForce now tenant grant k e m v h =
    elim (Bool-cases (is_empty_text tenant || is_empty_text grant)) [
      | inl q ↦ rw (is_revoked, q) v
      | inr q ↦ elim (Option-cases (load m (tenant, grant))) [
        | inl n ↦ rw (is_revoked, q, n) v
        | inr (x, n) ↦ elim (Bool-cases (lt_int (unix_nano now) x.expires_at)) [
          | inl l ↦ rw (is_revoked, q, n, l) v
          | inr l ↦
              rw (is_revoked, q, n, l)
                (delete-IsInForce k (tenant, grant) e x m v
                  (gone-lt (unix_nano now) x.expires_at e l h))
        ]
      ]
    ]

Steps-IsInForce :
    {limit : ℕ} {m n : Revocations} (k : RevocationKey) (e : ℤ)
    → ((now : ℕ) → now ≤ limit → lt_int (unix_nano (pos now)) e ≡ true)
    → Steps limit m n
    → IsInForce k e m
    → IsInForce k e n
Steps-IsInForce k e l start v = v
Steps-IsInForce k e l (applied {n = u} now r past) v =
    apply-IsInForce now r k e u (Steps-IsInForce k e l past v)
Steps-IsInForce k e l (asked {n = u} now tenant grant h past) v =
    asked-IsInForce (pos now) tenant grant k e u (Steps-IsInForce k e l past v) (l now h)
Steps-IsInForce k e l (cleaned {n = u} now h past) v =
    let w = Steps-IsInForce k e l past v in
    record {
      current = w.current;
      found =
          load-cleanup (unix_nano (pos now)) u k w.current w.found
            (lt-lasting (unix_nano (pos now)) e w.current.expires_at (l now h) w.lasting);
      lasting = w.lasting;
    }
Steps-IsInForce k e l (deleted {n = u} now j old o h past) v =
    delete-IsInForce k j e old u (Steps-IsInForce k e l past v)
      (gone-lt (unix_nano (pos now)) old.expires_at e o (l now h))

merged-IsInForce :
    (k : RevocationKey) (r : Revoked) (m : Revocations)
    → IsInForce k r.expires_at (merge_into k r m)
unfolding merge_into merge
merged-IsInForce k r m = elim (Option-cases (load m k)) [
  | inl q ↦
      rw (merge_into, q)
        (record {
          current = r;
          found = load-store m k k r ∙ rw (key_eq_refl k) refl;
          lasting = lt_int_irrefl r.expires_at;
        })
  | inr (x, q) ↦
      rw (merge_into, q)
        (record {
          current = merge r x;
          found = load-store m k k (merge r x) ∙ rw (key_eq_refl k) refl;
          lasting = merged-lasting r.expires_at x.expires_at;
        })
]

-- A revocation that was taken is in force.
taken-IsInForce :
    (now : ℤ) (r : RevocationRecord) (m : Revocations)
    → (apply_revocation now r m).1 ≡ true
    → (is_empty_text r.tenant_id || is_empty_text r.grant_id ≡ false)
      × IsInForce (r.tenant_id, r.grant_id) (unix_nano r.expires_at) (apply_revocation now r m).0
unfolding apply_revocation
taken-IsInForce now r m h =
    elim (Bool-cases (is_empty_text r.tenant_id || is_empty_text r.grant_id)) [
      | inl q ↦ let g = rw (apply_revocation, q) at h in cc
      | inr q ↦ elim (Option-cases r.revoked_at) [
        | inl n ↦ let g = rw (apply_revocation, q, n) at h in cc
        | inr (t, n) ↦ elim (Bool-cases (lt_int now r.expires_at)) [
          | inl l ↦
              (q, rw (apply_revocation, q, n, l) (merged-IsInForce (r.tenant_id, r.grant_id) _ m))
          | inr l ↦ let g = rw (apply_revocation, q, n, l) at h in cc
        ]
      ]
    ]

early :
    (limit e now : ℕ)
    → limit < e
    → e < 2 ^ 63
    → now ≤ limit
    → lt_int (unix_nano (pos now)) (unix_nano (pos e)) ≡ true
early limit e now l h k =
    rw (unix_nano_small now (omega (arith, l, h, k)), unix_nano_small e h) (ground (arith, l, k))

-- Once ApplyRevocation has taken a revocation that expires before its nanoseconds leave an int64, in
-- the year 2262, IsRevoked answers true for its tenant and grant until it expires: whatever further
-- revocations, questions, clean-ups and deletions of expired records come in between, in any
-- interleaving, as long as no question, clean-up or deletion reads a clock later than the question
-- does, and the question is asked before the expiry.
pub revoked_until_expiry :
    (now : ℤ) (limit e : ℕ) (r : RevocationRecord) (m n : Revocations)
    → (apply_revocation now r m).1 ≡ true
    → Steps limit (apply_revocation now r m).0 n
    → r.expires_at ≡ pos e
    → e < 2 ^ 63
    → limit < e
    → (is_revoked (pos limit) r.tenant_id r.grant_id n).1 ≡ true
unfolding is_revoked
revoked_until_expiry now limit e r m n h past same small l =
    let (q, v) = taken-IsInForce now r m h in
    let before = λ (t : ℕ) (k : t ≤ limit).
      ap (λ z. lt_int (unix_nano (pos t)) (unix_nano z)) same ∙ early limit e t l small k in
    let w = Steps-IsInForce (r.tenant_id, r.grant_id) (unix_nano r.expires_at) before past v in
    let late =
      lt-lasting (unix_nano (pos limit)) (unix_nano r.expires_at) w.current.expires_at
        (before limit (omega arith)) w.lasting in
    rw (is_revoked, q, w.found, late) refl
