-- ===== src/Sync/Outcomes.antt =====
-- What a synchronisation of one tenant leaves behind, on every path.
use standalone_policy_engine.Base.{
  ℕ, ◌<◌, ◌≤◌, Option, none, some, List, ◌≡◌, ◌≢◌, refl, sym, ap, ◌∙◌, inl, inr, Bool-cases,
  Option-cases, ltb, arith,
}
use standalone_policy_engine.Base.Text.{Text}
use standalone_policy_engine.Ast.{PolicyNode}
use standalone_policy_engine.Platform.{Platform}
use standalone_policy_engine.Dag.{find_entry}
use standalone_policy_engine.Engine.{
  Tenants, UpdateError, build_error, stale_revision, Updated, get_tenant_revision,
}
use standalone_policy_engine.Engine.Updates.{update_isolated}
use standalone_policy_engine.Engine.Revisions.{IsRevised, step-le, update_with_revision-IsRevised}
use standalone_policy_engine.Gc.{EngineWithGc, gc_update_with_revision}
use standalone_policy_engine.Gc.Agree.{updates_agree}
use standalone_policy_engine.PolicySet.{SetResult, ok, error, compile_policy_set}
use standalone_policy_engine.Snapshots.{PolicySnapshot, Database, Encoding, save_policy_snapshot}
use standalone_policy_engine.Sync.{
  TenantPolicyBundle, PolicySyncStorage, Syncer, SyncError, load_failed, ahead_of_database,
  save_failed, compile_failed, snapshot_of, save_edge_snapshot, after_update, publish_bundle,
  sync_tenant_with_revision,
}

-- What an update of the engine leaves behind.
record IsUpdated (e : EngineWithGc) (tenant : Text) (revision : ℕ)
    (u : EngineWithGc × Option UpdateError) : Type 0 where
  kept : (x : UpdateError) → u.1 ≡ some x → u.0 ≡ e
  others : (j : Text) → tenant ≢ j → find_entry u.0.tenants j ≡ find_entry e.tenants j
  accepted : u.1 ≡ none → revision ≤ get_tenant_revision u.0.tenants tenant
  stale : u.1 ≡ some stale_revision → revision ≤ get_tenant_revision u.0.tenants tenant
  forward :
      0 < revision → get_tenant_revision e.tenants tenant ≤ get_tenant_revision u.0.tenants tenant

gc_update-kept :
    (now : ℕ) (e : EngineWithGc) (t : Text) (ps : List PolicyNode) (pairs : List (Text × Text))
    (revision : ℕ) (x : UpdateError)
    → (gc_update_with_revision now e t ps pairs revision).1 ≡ some x
    → (gc_update_with_revision now e t ps pairs revision).0 ≡ e
unfolding gc_update_with_revision
gc_update-kept now e t ps pairs revision x h = ground arith

update-le :
    (s : Tenants) (t : Text) (ps : List PolicyNode) (pairs : List (Text × Text)) (revision : ℕ)
    (u : Updated)
    → IsRevised s t ps pairs revision u
    → (u.1 ≡ none → revision ≤ get_tenant_revision u.0 t)
      × (u.1 ≡ some stale_revision → revision ≤ get_tenant_revision u.0 t)
update-le s t ps pairs revision u r =
    (λ h. omega (arith, r.reached h), λ h. let (a, b, c) = r.stale h in rw a (omega (arith, c)))

gc_update-IsUpdated :
    (now : ℕ) (e : EngineWithGc) (t : Text) (ps : List PolicyNode) (pairs : List (Text × Text))
    (revision : ℕ)
    → IsUpdated e t revision (gc_update_with_revision now e t ps pairs revision)
gc_update-IsUpdated now e t ps pairs revision =
    let (a, same) = updates_agree now e t ps pairs revision in
    let tenants = ap (λ z. z.0) same in
    let result = ap (λ z. z.1) same in
    let revised = update_with_revision-IsRevised e.tenants t ps pairs revision in
    let (f, g) = update-le e.tenants t ps pairs revision _ revised in
    record {
      kept = gc_update-kept now e t ps pairs revision;
      others = λ j n.
          ap (λ z. find_entry z j) tenants ∙ (update_isolated e.tenants t j ps pairs revision n).1;
      accepted = λ h. rw tenants (f (sym result ∙ h));
      stale = λ h. rw tenants (g (sym result ∙ h));
      forward = λ h. rw tenants (step-le e.tenants t ps pairs revision _ t h revised);
    }

-- What a synchronisation leaves behind.
pub record IsSynced (Store : Type 0) (storage : PolicySyncStorage) (s : Syncer Store)
    (tenant : Text) (revision : ℕ) (r : Syncer Store × Option SyncError) : Type 0 where
  pub last_known_good : (e : SyncError) → r.1 ≡ some e → e ≢ save_failed → r.0 ≡ s
  -- The error comes after the publication: only the local snapshots are as they were.
  pub published_unsaved :
      r.1 ≡ some save_failed
      → (r.0.badger_store ≡ s.badger_store)
        × (b : TenantPolicyBundle) × (storage.tenant_policy_bundle tenant ≡ some b)
        × (revision ≤ b.revision)
        × (b.revision ≤ get_tenant_revision r.0.engine.tenants tenant)
  pub isolated :
      (j : Text) → tenant ≢ j → find_entry r.0.engine.tenants j ≡ find_entry s.engine.tenants j
  pub same_status : r.0.status ≡ s.status
  pub forward :
      ((b : TenantPolicyBundle) → storage.tenant_policy_bundle tenant ≡ some b → 0 < b.revision)
      → get_tenant_revision s.engine.tenants tenant ≤ get_tenant_revision r.0.engine.tenants tenant
  pub reached :
      r.1 ≡ none
      → (b : TenantPolicyBundle) × (storage.tenant_policy_bundle tenant ≡ some b)
        × (revision ≤ b.revision)
        × (b.revision ≤ get_tenant_revision r.0.engine.tenants tenant)

module _ {Store Value : Type 0} (lib : Platform) (db : Database Store Value)
    (json : Encoding Value) where
  -- Saving the snapshot fails as such or not at all, and does not touch the engine.
  save_edge-effect :
      (x : PolicySnapshot) (s : Syncer Store)
      → ((save_edge_snapshot lib db json x s).0.engine ≡ s.engine)
        × ((save_edge_snapshot lib db json x s).0.status ≡ s.status)
        × ((e : SyncError) → (save_edge_snapshot lib db json x s).1 ≡ some e → e ≡ save_failed)
        × ((save_edge_snapshot lib db json x s).1 ≡ some save_failed
            → (save_edge_snapshot lib db json x s).0.badger_store ≡ s.badger_store)
  unfolding save_edge_snapshot
  save_edge-effect x s = elim (Option-cases s.badger_store) [
    | inl k ↦ rw (save_edge_snapshot, k) (refl, refl, λ e h. cc, λ h. cc)
    | inr (store, k) ↦ elim (Option-cases (save_policy_snapshot db json store x)) [
      | inl l ↦ rw (save_edge_snapshot, k, l) (refl, refl, λ e h. cc, λ h. cc)
      | inr (t, l) ↦ rw (save_edge_snapshot, k, l) (refl, refl, λ e h. cc, λ h. cc)
    ]
  ]

  after_update-IsSynced :
      (storage : PolicySyncStorage) (x : PolicySnapshot) (s : Syncer Store) (tenant : Text)
      (revision : ℕ) (b : TenantPolicyBundle) (u : EngineWithGc × Option UpdateError)
      → storage.tenant_policy_bundle tenant ≡ some b
      → revision ≤ b.revision
      → IsUpdated s.engine tenant b.revision u
      → IsSynced Store storage s tenant revision (after_update lib db json x s u)
  after_update-IsSynced storage x s tenant revision b (e, some stale_revision) k l u = record {
    last_known_good = λ f h n. cc;
    published_unsaved = λ h. cc;
    isolated = u.others;
    same_status = refl;
    forward = λ h. u.forward (h b k);
    reached = λ h. (b, k, l, u.stale refl);
  }
  after_update-IsSynced storage x s tenant revision b (e, some (build_error d)) k l u = record {
    last_known_good = λ f h n. ap (λ z. record s { engine = z }) (u.kept (build_error d) refl);
    published_unsaved = λ h. cc;
    isolated = u.others;
    same_status = refl;
    forward = λ h. u.forward (h b k);
    reached = λ h. cc;
  }
  after_update-IsSynced storage x s tenant revision b (e, none) k l u =
      let (same, status, only, unsaved) = save_edge-effect x (record s { engine = e }) in
      record {
        last_known_good = λ f h n. absurd (n (only f h));
        published_unsaved = λ h. (unsaved h, b, k, l, rw same (u.accepted refl));
        isolated = λ j n. ap (λ z. find_entry z.tenants j) same ∙ u.others j n;
        same_status = status;
        forward = λ h. rw same (u.forward (h b k));
        reached = λ h. (b, k, l, rw same (u.accepted refl));
      }

  -- A failure that leaves the syncer as it was.
  failure-IsSynced :
      (storage : PolicySyncStorage) (s : Syncer Store) (tenant : Text) (revision : ℕ)
      (e : SyncError)
      → e ≢ save_failed
      → IsSynced Store storage s tenant revision (s, some e)
  failure-IsSynced storage s tenant revision e early = record {
    last_known_good = λ f h n. refl;
    published_unsaved = λ h. let k : e ≡ save_failed = cc in absurd (early k);
    isolated = λ j n. refl;
    same_status = refl;
    forward = λ h. omega arith;
    reached = λ h. cc;
  }

  pub sync_tenant-IsSynced :
      (now : ℕ) (storage : PolicySyncStorage) (s : Syncer Store) (tenant : Text) (revision : ℕ)
      → IsSynced Store storage s tenant revision
          (sync_tenant_with_revision lib db json now storage s tenant revision)
  unfolding sync_tenant_with_revision
  sync_tenant-IsSynced now storage s tenant revision =
      elim (Option-cases (storage.tenant_policy_bundle tenant)) [
        | inl k ↦
            rw (sync_tenant_with_revision, k)
              (failure-IsSynced storage s tenant revision load_failed (λ x. cc))
        | inr (b, k) ↦
            rw (sync_tenant_with_revision, k) (by_compiled b k (compile_policy_set lib b.policies))
      ]
    where
      by_compiled :
          (b : TenantPolicyBundle)
          → storage.tenant_policy_bundle tenant ≡ some b
          → (r : SetResult (List PolicyNode))
          → IsSynced Store storage s tenant revision
              (publish_bundle lib db json now s tenant revision b r)
      by_compiled b k (error e) =
          failure-IsSynced storage s tenant revision (compile_failed e) (λ x. cc)
      by_compiled b k (ok ps) = elim (Bool-cases (ltb b.revision revision)) [
        | inl l ↦ rw l (failure-IsSynced storage s tenant revision ahead_of_database (λ x. cc))
        | inr l ↦ rw l (
            after_update-IsSynced storage (snapshot_of now tenant b) s tenant revision b _ k
              (ground arith) (gc_update-IsUpdated now s.engine tenant ps b.inheritances b.revision))
      ]
