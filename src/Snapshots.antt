-- ===== src/Snapshots.antt =====
-- The local store of policy snapshots in internal/storage/badger.go. The embedded database and the
-- JSON encoding of a snapshot are libraries: they are the parameters Database and Encoding, and
-- what they promise is stated apart, in Snapshots.Saved.
pub mod Saved
pub mod Refined
use standalone_policy_engine.Base.{
  ℕ, Bool, true, false, ◌&&◌, ◌||◌, Option, none, some, List, [], ◌∷◌, ◌++◌, if◌then◌else◌, ◌==◌,
  length, drop, map,
}
use standalone_policy_engine.Base.Text.{Text, txt, text_eq}
use standalone_policy_engine.Dag.{member}
use standalone_policy_engine.PolicySet.{PolicySource}

-- SnapshotAt is counted from Go's zero time.
pub record PolicySnapshot : Type 0 where
  pub format_version : ℕ
  pub tenant_id : Text
  pub policies : List PolicySource
  pub inheritances : List (Text × Text)
  pub revision : ℕ
  pub snapshot_at : ℕ

abbrev pub policy_snapshot_format_version : ℕ
policy_snapshot_format_version = 1

-- A read of the database: an error, ErrKeyNotFound, or a value.
pub data Read {ℓ} (A : Type ℓ) : Type ℓ where
  read_error missing : Read A
  found : A → Read A

-- The database as its contents: a read transaction for a key, the keys with a prefix in their
-- order (none for an error), and update transactions that set or delete a key (none for an error).
pub record Database (Store Value : Type 0) : Type 0 where
  pub get : Store → Text → Read Value
  pub keys : Store → Text → Option (List Text)
  pub set : Store → Text → Value → Option Store
  pub delete : Store → Text → Option Store

-- json.Marshal and json.Unmarshal on a snapshot, none for an error.
pub record Encoding (Value : Type 0) : Type 0 where
  pub marshal : PolicySnapshot → Option Value
  pub unmarshal : Value → Option PolicySnapshot

abbrev pub tenant_prefix : Text
tenant_prefix = txt "policy:tenant:"

abbrev pub policy_snapshot_key : Text → Text
policy_snapshot_key tenant = tenant_prefix ++ tenant

abbrev pub is_empty : Text → Bool
is_empty [] = true
is_empty (c ∷ s) = false

-- Every source is complete, and its id is not among those before it.
unfoldable pub sources_are_valid : List Text → List PolicySource → Bool
sources_are_valid seen [] = true
sources_are_valid seen (p ∷ ps) =
    let rest = sources_are_valid (p.id ∷ seen) ps in
    if is_empty p.id || is_empty p.text then false else if member p.id seen then false else rest

-- validatePolicySnapshot returns nil.
unfoldable pub validate_policy_snapshot : PolicySnapshot → Bool
validate_policy_snapshot s =
    if s.format_version == policy_snapshot_format_version
    then (if is_empty s.tenant_id
        then false
        else if s.revision == 0
        then false
        else if s.snapshot_at == 0
        then false
        else sources_are_valid [] s.policies)
    else false

module _ {Store Value : Type 0} (db : Database Store Value) (json : Encoding Value) where
  -- The store after SavePolicySnapshot, none for an error.
  unfoldable pub save_policy_snapshot : Store → PolicySnapshot → Option Store
  save_policy_snapshot store s = elim (validate_policy_snapshot s) [
    | false ↦ none
    | true ↦ elim (json.marshal s) [
      | none ↦ none
      | some bytes ↦ db.set store (policy_snapshot_key s.tenant_id) bytes
    ]
  ]

  -- What LoadPolicySnapshot makes of a value.
  abbrev pub of_value : Option PolicySnapshot → Read PolicySnapshot
  of_value none = read_error
  of_value (some s) = if validate_policy_snapshot s then found s else read_error

  unfoldable pub load_policy_snapshot : Store → Text → Read PolicySnapshot
  load_policy_snapshot store tenant = elim (db.get store (policy_snapshot_key tenant)) [
    | read_error ↦ read_error
    | missing ↦ missing
    | found bytes ↦ of_value (json.unmarshal bytes)
  ]

  -- ListTenantIDs: the keys without the prefix.
  unfoldable pub list_tenant_ids : Store → Option (List Text)
  list_tenant_ids store = elim (db.keys store tenant_prefix) [
    | none ↦ none
    | some ks ↦ some (map (λ k. drop (length tenant_prefix) k) ks)
  ]

  unfoldable pub delete_tenant_snapshot : Store → Text → Option Store
  delete_tenant_snapshot store tenant = db.delete store (policy_snapshot_key tenant)
