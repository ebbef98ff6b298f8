-- ===== src/Sync.antt =====
-- The synchronisation of the engine with the policy database in internal/engine/sync.go. The
-- database is reached through the interface policySyncStorage, a record of answers here: an
-- operation asks each question of it once, so that answers of different moments need not agree. The
-- goroutines of the listener and of the ticker are sequences of the steps below, in any order, and
-- `now` is the reading of the clock in a step.
pub mod Outcomes
pub mod Histories
pub mod Catching
use standalone_policy_engine.Base.{
  ℕ, zero, suc, ◌+◌, Bool, true, false, not, ◌&&◌, ◌||◌, Option, none, some, List, [], ◌∷◌, map,
  if◌then◌else◌, ltb, ◌==◌,
}
use standalone_policy_engine.Base.Text.{Text}
use standalone_policy_engine.Ast.{PolicyNode}
use standalone_policy_engine.Platform.{Platform}
use standalone_policy_engine.Trie.{TrieRoot}
use standalone_policy_engine.Dag.{DagError}
use standalone_policy_engine.Engine.{
  Tenants, UpdateError, build_error, stale_revision, get_tenant_revision,
}
use standalone_policy_engine.Gc.{EngineWithGc, gc_update_with_revision}
use standalone_policy_engine.PolicySet.{
  PolicySource, SetError, SetResult, ok, error, compile_policy_set,
}
use standalone_policy_engine.Snapshots.{
  PolicySnapshot, policy_snapshot_format_version, Database, Encoding, save_policy_snapshot,
}

pub data SyncStatus : Type 0 where
  healthy degraded not_ready : SyncStatus

-- storage.TenantPolicyBundle, with the two fields of a DBPolicy that are read here.
pub record TenantPolicyBundle : Type 0 where
  pub policies : List PolicySource
  pub inheritances : List (Text × Text)
  pub revision : ℕ

-- The answers of the database, none for an error.
pub record PolicySyncStorage : Type 0 where
  pub tenant_revision : Text → Option ℕ
  pub tenant_policy_bundle : Text → Option TenantPolicyBundle

-- `badger_store` is none for a nil pointer.
pub record Syncer (Store : Type 0) : Type 0 where
  pub engine : EngineWithGc
  pub badger_store : Option Store
  pub status : SyncStatus

pub data SyncError : Type 0 where
  revision_unread load_failed ahead_of_database save_failed : SyncError
  compile_failed : SetError → SyncError
  publish_failed : UpdateError → SyncError

pub record PolicyUpdateEvent : Type 0 where
  pub tenant_id : Text
  pub revision : ℕ

abbrev pub new_syncer : {Store : Type 0} → EngineWithGc → Syncer Store
new_syncer e = record { engine = e; badger_store = none; status = not_ready }

abbrev pub should_sync_revision : ℕ → ℕ → Bool
should_sync_revision current received = received == 0 || ltb current received

abbrev pub set_sync_status : {Store : Type 0} → SyncStatus → Syncer Store → Syncer Store
set_sync_status st s = record s { status = st }

-- An error of a synchronisation makes the syncer degraded.
abbrev pub note_error : {Store : Type 0} → Syncer Store × Option SyncError → Syncer Store
note_error (s, none) = s
note_error (s, some e) = set_sync_status degraded s

-- The callback of ListenPolicyEvents when it listens, and what is done when it returns an error.
abbrev pub listening : {Store : Type 0} → Syncer Store → Syncer Store
listening = set_sync_status healthy

abbrev pub connection_lost : {Store : Type 0} → Syncer Store → Syncer Store
connection_lost = set_sync_status degraded

abbrev pub snapshot_of : ℕ → Text → TenantPolicyBundle → PolicySnapshot
snapshot_of now tenant b = record {
  format_version = policy_snapshot_format_version;
  tenant_id = tenant;
  policies = b.policies;
  inheritances = b.inheritances;
  revision = b.revision;
  snapshot_at = now;
}

module _ {Store Value : Type 0} (lib : Platform) (db : Database Store Value)
    (json : Encoding Value) where
  -- The last part of SyncTenantWithRevision, where the engine has the bundle.
  unfoldable pub save_edge_snapshot :
      PolicySnapshot → Syncer Store → Syncer Store × Option SyncError
  save_edge_snapshot x s = elim s.badger_store [
    | none ↦ (s, none)
    | some store ↦ elim (save_policy_snapshot db json store x) [
      | none ↦ (s, some save_failed)
      | some t ↦ (record s { badger_store = some t }, none)
    ]
  ]

  -- What follows the engine's answer to the update.
  abbrev pub after_update :
      PolicySnapshot
      → Syncer Store
      → EngineWithGc × Option UpdateError
      → Syncer Store × Option SyncError
  after_update x s (e, none) = save_edge_snapshot x (record s { engine = e })
  after_update x s (e, some stale_revision) = (record s { engine = e }, none)
  after_update x s (e, some (build_error d)) =
      (record s { engine = e }, some (publish_failed (build_error d)))

  -- A bundle whose policies are compiled.
  abbrev pub publish_bundle :
      ℕ
      → Syncer Store
      → Text
      → ℕ
      → TenantPolicyBundle
      → SetResult (List PolicyNode)
      → Syncer Store × Option SyncError
  publish_bundle now s tenant revision b (error e) = (s, some (compile_failed e))
  publish_bundle now s tenant revision b (ok ps) =
      if ltb b.revision revision
      then (s, some ahead_of_database)
      else after_update (snapshot_of now tenant b) s
          (gc_update_with_revision now s.engine tenant ps b.inheritances b.revision)

  unfoldable pub sync_tenant_with_revision :
      ℕ → PolicySyncStorage → Syncer Store → Text → ℕ → Syncer Store × Option SyncError
  sync_tenant_with_revision now storage s tenant revision =
      elim (storage.tenant_policy_bundle tenant) [
        | none ↦ (s, some load_failed)
        | some b ↦ publish_bundle now s tenant revision b (compile_policy_set lib b.policies)
      ]

  unfoldable pub sync_tenant :
      ℕ → PolicySyncStorage → Syncer Store → Text → Syncer Store × Option SyncError
  sync_tenant now storage s tenant = sync_tenant_with_revision now storage s tenant 0

  -- The callback of ListenPolicyEvents for an event.
  unfoldable pub handle_event :
      ℕ → PolicySyncStorage → PolicyUpdateEvent → Syncer Store → Syncer Store
  handle_event now storage ev s =
      if should_sync_revision (get_tenant_revision s.engine.tenants ev.tenant_id) ev.revision
      then note_error (sync_tenant_with_revision now storage s ev.tenant_id ev.revision)
      else s

  unfoldable pub reconcile_tenant_revision :
      ℕ → PolicySyncStorage → Syncer Store → Text → Syncer Store × Option SyncError
  reconcile_tenant_revision now storage s tenant = elim (storage.tenant_revision tenant) [
    | none ↦ (s, some revision_unread)
    | some revision ↦
        if ltb (get_tenant_revision s.engine.tenants tenant) revision
        then sync_tenant_with_revision now storage s tenant revision
        else (s, none)
  ]

  -- The loop of reconcileLoadedTenants over the tenants that were loaded when it began.
  unfoldable pub reconcile_tenants : ℕ → PolicySyncStorage → List Text → Syncer Store → Syncer Store
  reconcile_tenants now storage [] s = s
  reconcile_tenants now storage (t ∷ ts) s =
      reconcile_tenants now storage ts (note_error (reconcile_tenant_revision now storage s t))

  unfoldable pub reconcile_loaded_tenants : ℕ → PolicySyncStorage → Syncer Store → Syncer Store
  reconcile_loaded_tenants now storage s =
      reconcile_tenants now storage (map (λ e. e.0) s.engine.tenants) s

-- The loop of Readiness: the status that is returned; an error goes with every other one than
-- healthy.
unfoldable pub revisions_match : PolicySyncStorage → Tenants → SyncStatus
revisions_match storage [] = healthy
revisions_match storage ((tenant, trie) ∷ ts) =
    let rest = revisions_match storage ts in
    elim (storage.tenant_revision tenant) [
      | none ↦ degraded
      | some revision ↦ if revision == trie.revision then rest else degraded
    ]

unfoldable pub readiness : {Store : Type 0} → PolicySyncStorage → Syncer Store → SyncStatus
readiness storage s = elim s.status [
  | healthy ↦ revisions_match storage s.engine.tenants
  | degraded ↦ degraded
  | not_ready ↦ not_ready
]
