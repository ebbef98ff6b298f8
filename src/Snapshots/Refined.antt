-- ===== src/Snapshots/Refined.antt =====
-- The local store as a map from tenants to snapshots.
use standalone_policy_engine.Base.{true, Option, none, some, List, ◌≡◌, ◌≢◌, ◌↔◌, In, if◌then◌else◌}
use standalone_policy_engine.Base.Text.{Text, text_eq, has_prefix}
use standalone_policy_engine.Snapshots.{
  PolicySnapshot, Read, found, missing, Database, Encoding, policy_snapshot_key,
  validate_policy_snapshot, save_policy_snapshot, delete_tenant_snapshot,
}
use standalone_policy_engine.Snapshots.Saved.{HasUtf8}

-- What the database promises of deletions and of its keys.
pub record HasKeys (Store Value : Type 0) (db : Database Store Value) : Type 0 where
  pub get-delete : (s t : Store) (k : Text) → db.delete s k ≡ some t → db.get t k ≡ missing
  pub get-delete_other :
      (s t : Store) (k j : Text) → db.delete s k ≡ some t → k ≢ j → db.get t j ≡ db.get s j
  pub In-keys :
      (s : Store) (prefix : Text) (ks : List Text) (k : Text)
      → db.keys s prefix ≡ some ks
      → In k ks ↔ ((has_prefix k prefix ≡ true) × (v : Value) × (db.get s k ≡ found v))

-- The snapshots that are kept, by tenant.
abbrev pub Kept : Type 0
Kept = Text → Option PolicySnapshot

abbrev pub with_kept : Text → Option PolicySnapshot → Kept → Kept
with_kept k o m t = if text_eq k t then o else m t

abbrev pub of_kept : Option PolicySnapshot → Read PolicySnapshot
of_kept none = missing
of_kept (some x) = found x

-- What successful saves of snapshots in UTF-8 and successful deletions make of a store without
-- snapshots, and what is kept then.
pub data Stored {Store Value : Type 0} (db : Database Store Value) (json : Encoding Value)
    : Store → Kept → Type 0 where
  opened :
      {s : Store}
      → ((t : Text) → db.get s (policy_snapshot_key t) ≡ missing)
      → Stored db json s (λ t. none)
  saved :
      {s u : Store} {m : Kept} (x : PolicySnapshot)
      → HasUtf8 x
      → save_policy_snapshot db json s x ≡ some u
      → Stored db json s m
      → Stored db json u (with_kept x.tenant_id (some x) m)
  deleted :
      {s u : Store} {m : Kept} (t : Text)
      → delete_tenant_snapshot db json s t ≡ some u
      → Stored db json s m
      → Stored db json u (with_kept t none m)

-- What is read for a key, where a snapshot is kept or none is.
abbrev IsHeld : {Value : Type 0} → Encoding Value → Read Value → Option PolicySnapshot → Type 0
IsHeld json r none = r ≡ missing
IsHeld {Value} json r (some x) =
    (v : Value) × (r ≡ found v) × (json.unmarshal v ≡ some x) × (validate_policy_snapshot x ≡ true)
