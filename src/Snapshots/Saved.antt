-- ===== src/Snapshots/Saved.antt =====
-- A snapshot that is saved is what is loaded.
use standalone_policy_engine.Base.{
  true, some, [], ◌∷◌, ◌++◌, ◌≡◌, ◌≢◌, refl, ap, inl, inr, Bool-cases, Option-cases, drop, In,
}
use standalone_policy_engine.Base.Text.{Text}
use standalone_policy_engine.Base.Utf8.{is_utf8}
use standalone_policy_engine.PolicySet.{PolicySource}
use standalone_policy_engine.Snapshots.{
  PolicySnapshot, found, Database, Encoding, tenant_prefix, policy_snapshot_key,
  validate_policy_snapshot, save_policy_snapshot, load_policy_snapshot,
}

-- What the database promises: a key that was set is read back, and other keys are left alone.
pub record IsDatabase (Store Value : Type 0) (db : Database Store Value) : Type 0 where
  pub get-set : (s t : Store) (k : Text) (v : Value) → db.set s k v ≡ some t → db.get t k ≡ found v
  pub get-set_other :
      (s t : Store) (k j : Text) (v : Value)
      → db.set s k v ≡ some t
      → k ≢ j
      → db.get t j ≡ db.get s j

-- All the texts of a snapshot are valid UTF-8.
pub record HasUtf8 (s : PolicySnapshot) : Type 0 where
  pub tenant : is_utf8 s.tenant_id ≡ true
  pub sources :
      (p : PolicySource) → In p s.policies → (is_utf8 p.id ≡ true) × (is_utf8 p.text ≡ true)
  pub edges : (e : Text × Text) → In e s.inheritances → (is_utf8 e.0 ≡ true) × (is_utf8 e.1 ≡ true)

-- What the encoding promises: a value that was made from a snapshot whose texts are valid UTF-8 is
-- read as the snapshot. In other texts it replaces bytes.
abbrev pub IsEncoding : (Value : Type 0) → Encoding Value → Type 0
IsEncoding Value json =
    (s : PolicySnapshot) (v : Value)
    → HasUtf8 s
    → json.marshal s ≡ some v
    → json.unmarshal v ≡ some s

pub append-cancel : (s t u : Text) → s ++ t ≡ s ++ u → t ≡ u
append-cancel [] t u e = e
append-cancel (c ∷ s) t u e = append-cancel s t u (ap (λ l. drop 1 l) e)

-- The key and the value that a successful save sets.
pub save-sets :
    {Store Value : Type 0} (db : Database Store Value) (json : Encoding Value) (store t : Store)
    (s : PolicySnapshot)
    → save_policy_snapshot db json store s ≡ some t
    → (validate_policy_snapshot s ≡ true)
      × (v : Value) × (json.marshal s ≡ some v)
      × (db.set store (policy_snapshot_key s.tenant_id) v ≡ some t)
unfolding save_policy_snapshot
save-sets db json store t s h = elim (Bool-cases (validate_policy_snapshot s)) [
  | inr e ↦ let k = rw (save_policy_snapshot, e) at h in cc
  | inl e ↦ elim (Option-cases (json.marshal s)) [
    | inl m ↦ let k = rw (save_policy_snapshot, e, m) at h in cc
    | inr (v, m) ↦ (e, v, m, rw (save_policy_snapshot, e, m) at h)
  ]
]

-- After a snapshot was saved, its tenant's snapshot is loaded as it was, and every other tenant's
-- is loaded as before; for a database that reads a key back as it was set and leaves the other keys
-- alone, an encoding that reads a snapshot back as it was written where its texts are valid UTF-8, and
-- a snapshot whose texts are.
pub save_policy_snapshot-load :
    {Store Value : Type 0} (db : Database Store Value) (json : Encoding Value)
    → IsDatabase Store Value db
    → IsEncoding Value json
    → (store t : Store) (s : PolicySnapshot) → HasUtf8 s
    → save_policy_snapshot db json store s ≡ some t
    → (load_policy_snapshot db json t s.tenant_id ≡ found s)
      × ((j : Text)
          → s.tenant_id ≢ j
          → load_policy_snapshot db json t j ≡ load_policy_snapshot db json store j)
unfolding load_policy_snapshot
save_policy_snapshot-load db json laws reads store t s u h =
    let (e, v, m, k) = save-sets db json store t s h in
    (
      rw
          (
            load_policy_snapshot,
            laws.get-set store t (policy_snapshot_key s.tenant_id) v k,
            reads s v u m,
            e,
          )
          refl,
      λ j n.
          rw
            (
              load_policy_snapshot,
              laws.get-set_other store t (policy_snapshot_key s.tenant_id) (policy_snapshot_key j) v
                  k (λ q. n (append-cancel tenant_prefix s.tenant_id j q)),
            )
            refl,
    )
