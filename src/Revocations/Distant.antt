-- ===== src/Revocations/Distant.antt =====
-- A revocation whose expiry is beyond the range of UnixNano.
use standalone_policy_engine.Base.{
  ℕ, ◌≤◌, ◌<◌, ◌≡◌, ◌^◌, ◌-◌, ◌||◌, refl, ap, ◌∙◌, true, false, some, none, arith,
}
use standalone_policy_engine.Base.Int.{ℤ, pos, negsuc, lt_int}
use standalone_policy_engine.Revocations.{
  RevocationKey, Revoked, RevocationRecord, Revocations, load, store, merge_into, is_empty_text,
  unix, unix_nano, apply_revocation, is_revoked,
}
use standalone_policy_engine.Revocations.Lookup.{load-store, key_eq_refl}
use standalone_policy_engine.Revocations.Times.{unix_nano_small, unix_nano_distant}

-- A revocation that expires after the nanoseconds of an int64 end, in the year 2262, and before
-- those of a uint64 do, is taken by ApplyRevocation, and then IsRevoked answers false at every time
-- before 2262: the stored expiry is negative. This is for a grant with no revocation before.
pub distant_revocation_lost :
    (now later e : ℕ) (t : ℤ) (r : RevocationRecord) (m : Revocations)
    → (is_empty_text r.tenant_id || is_empty_text r.grant_id) ≡ false
    → r.revoked_at ≡ some t
    → r.expires_at ≡ pos e
    → 2 ^ 63 ≤ e
    → e < 2 ^ 64
    → now < 2 ^ 63
    → later < 2 ^ 63
    → load m (r.tenant_id, r.grant_id) ≡ none
    → ((apply_revocation (pos now) r m).1 ≡ true)
      × ((is_revoked (pos later) r.tenant_id r.grant_id (apply_revocation (pos now) r m).0).1
          ≡ false)
unfolding is_revoked apply_revocation merge_into
distant_revocation_lost now later e t r m named at until low high n l fresh =
    let after : lt_int (pos now) r.expires_at ≡ true =
      ap (λ z. lt_int (pos now) z) until ∙ ground (arith, n, low) in
    let expiry = ap unix_nano until ∙ unix_nano_distant e low high in
    let k : RevocationKey = (r.tenant_id, r.grant_id) in
    let kept : Revoked = record { revoked_at = unix t; expires_at = unix_nano r.expires_at } in
    let stored : apply_revocation (pos now) r m ≡ (store k kept m, true) =
      rw (apply_revocation, named, at, after, merge_into, fresh) refl in
    let loaded : load (store k kept m) k ≡ some kept =
      load-store m k k kept ∙ rw (key_eq_refl k) refl in
    let over : lt_int (unix_nano (pos later)) (unix_nano r.expires_at) ≡ false =
      ap (λ z. lt_int (unix_nano (pos later)) z) expiry
      ∙ ap (λ z. lt_int z (negsuc (2 ^ 64 - 1 - e))) (unix_nano_small later l) in
    (
      ap (λ z. z.1) stored,
      ap (λ z. (is_revoked (pos later) r.tenant_id r.grant_id z.0).1) stored
          ∙ rw (is_revoked, named, loaded, over) refl,
    )
