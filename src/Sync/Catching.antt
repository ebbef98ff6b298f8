-- ===== src/Sync/Catching.antt =====
-- A pass of the reconciliation brings the loaded tenants to the database's revisions.
use standalone_policy_engine.Base.{
  ℕ, ◌<◌, ◌≤◌, false, none, some, List, [], ◌∷◌, map, In, ◌≡◌, ◌≢◌, refl, ap, ◌∙◌, inl, inr,
  Bool-cases, Option-cases, ltb, arith,
}
use standalone_policy_engine.Base.Text.{Text, text_eq, text_eq_iff, text_eq_ne, text_eq_refl}
use standalone_policy_engine.Ast.{PolicyNode}
use standalone_policy_engine.Platform.{Platform}
use standalone_policy_engine.Trie.{TrieRoot}
use standalone_policy_engine.Engine.{
  Tenants, built, build_tenant_trie, state_with_tenant, get_tenant_revision, revision_is_stale,
  revision_is_duplicate,
}
use standalone_policy_engine.Engine.Updates.{revision-built, get_tenant_revision-with}
use standalone_policy_engine.Gc.{EngineWithGc, gc_update_with_revision, touch_tenant}
use standalone_policy_engine.PolicySet.{ok, compile_policy_set}
use standalone_policy_engine.Snapshots.{Database, Encoding}
use standalone_policy_engine.Sync.{
  TenantPolicyBundle, PolicySyncStorage, Syncer, note_error, sync_tenant_with_revision,
  save_edge_snapshot, reconcile_tenant_revision, reconcile_tenants, reconcile_loaded_tenants,
}
use standalone_policy_engine.Sync.Outcomes.{sync_tenant-IsSynced}
use standalone_policy_engine.Sync.Histories.{get_tenant_revision-same}

-- The database answers for the tenant: with its revision, and with a bundle of that revision that
-- can be compiled and built.
pub record IsServed (lib : Platform) (storage : PolicySyncStorage) (tenant : Text) (revision : ℕ)
    : Type 0 where
  pub bundle : TenantPolicyBundle
  pub policies : List PolicyNode
  pub trie : TrieRoot
  pub answers_revision : storage.tenant_revision tenant ≡ some revision
  pub answers_bundle : storage.tenant_policy_bundle tenant ≡ some bundle
  pub same_revision : bundle.revision ≡ revision
  pub compiles : compile_policy_set lib bundle.policies ≡ ok policies
  pub builds : build_tenant_trie tenant policies bundle.inheritances bundle.revision ≡ built trie

-- A revision above the engine's is neither stale nor a duplicate.
fresh :
    (s : Tenants) (t : Text) (r : ℕ)
    → get_tenant_revision s t < r
    → (revision_is_stale s t r ≡ false) × (revision_is_duplicate s t r ≡ false)
unfolding revision_is_stale revision_is_duplicate get_tenant_revision
fresh s t r h = (ground arith, ground arith)

pub gc_update-fresh :
    (now : ℕ) (e : EngineWithGc) (t : Text) (ps : List PolicyNode) (pairs : List (Text × Text))
    (r : ℕ) (x : TrieRoot)
    → build_tenant_trie t ps pairs r ≡ built x
    → get_tenant_revision e.tenants t < r
    → ((gc_update_with_revision now e t ps pairs r).0.tenants ≡ state_with_tenant e.tenants t x)
      × ((gc_update_with_revision now e t ps pairs r).1 ≡ none)
unfolding gc_update_with_revision touch_tenant
gc_update-fresh now e t ps pairs r x b h =
    let (p, q) = fresh e.tenants t r h in rw (gc_update_with_revision, b, p, q) (refl, refl)

module _ {Store Value : Type 0} (lib : Platform) (db : Database Store Value)
    (json : Encoding Value) where
  -- A syncer without a local store takes a served bundle of a higher revision.
  sync-takes :
      (now : ℕ) (storage : PolicySyncStorage) (s : Syncer Store) (t : Text) (r : ℕ)
      → s.badger_store ≡ none
      → IsServed lib storage t r
      → get_tenant_revision s.engine.tenants t < r
      → ((sync_tenant_with_revision lib db json now storage s t r).1 ≡ none)
        × (get_tenant_revision
              (sync_tenant_with_revision lib db json now storage s t r).0.engine.tenants
              t
            ≡ r)
        × ((sync_tenant_with_revision lib db json now storage s t r).0.badger_store ≡ none)
  unfolding sync_tenant_with_revision save_edge_snapshot
  sync-takes now storage s t r n v h =
      let b = v.bundle in
      let u = gc_update_with_revision now s.engine t v.policies b.inheritances b.revision in
      let same = v.same_revision in
      let low : get_tenant_revision s.engine.tenants t < b.revision = rw same h in
      let (tenants, result) =
        gc_update-fresh now s.engine t v.policies b.inheritances b.revision v.trie v.builds low in
      let not_ahead : ltb b.revision r ≡ false = ground arith in
      let pair : u ≡ (u.0, none) = ap (λ o. (u.0, o)) result in
      let reached : get_tenant_revision u.0.tenants t ≡ r =
        ap (λ z. get_tenant_revision z t) tenants
        ∙ get_tenant_revision-with s.engine.tenants t t v.trie
        ∙ rw (text_eq_refl t)
            (revision-built t v.policies b.inheritances b.revision v.trie v.builds ∙ same) in
      rw
        (
          sync_tenant_with_revision, v.answers_bundle, v.compiles, not_ahead, pair,
          save_edge_snapshot, n,
        )
        (refl, reached, n)

  reconcile_tenant-takes :
      (now : ℕ) (storage : PolicySyncStorage) (s : Syncer Store) (t : Text) (r : ℕ)
      → s.badger_store ≡ none
      → IsServed lib storage t r
      → get_tenant_revision s.engine.tenants t ≤ r
      → ((reconcile_tenant_revision lib db json now storage s t).1 ≡ none)
        × (get_tenant_revision
              (reconcile_tenant_revision lib db json now storage s t).0.engine.tenants
              t
            ≡ r)
        × ((reconcile_tenant_revision lib db json now storage s t).0.badger_store ≡ none)
  unfolding reconcile_tenant_revision
  reconcile_tenant-takes now storage s t r n v h =
      elim (Bool-cases (ltb (get_tenant_revision s.engine.tenants t) r)) [
        | inl l ↦
            rw (reconcile_tenant_revision, v.answers_revision, l)
              (sync-takes now storage s t r n v (ground arith))
        | inr l ↦ rw (reconcile_tenant_revision, v.answers_revision, l) (refl, ground arith, n)
      ]

  reconcile_tenant-isolated :
      (now : ℕ) (storage : PolicySyncStorage) (s : Syncer Store) (t j : Text)
      → t ≢ j
      → get_tenant_revision
          (reconcile_tenant_revision lib db json now storage s t).0.engine.tenants
          j
        ≡ get_tenant_revision s.engine.tenants j
  unfolding reconcile_tenant_revision
  reconcile_tenant-isolated now storage s t j n = elim (Option-cases (storage.tenant_revision t)) [
    | inl e ↦ rw (reconcile_tenant_revision, e) refl
    | inr (r, e) ↦ elim (Bool-cases (ltb (get_tenant_revision s.engine.tenants t) r)) [
      | inl l ↦
          rw (reconcile_tenant_revision, e, l)
            (get_tenant_revision-same _ _ j
              ((sync_tenant-IsSynced lib db json now storage s t r).isolated j n))
      | inr l ↦ rw (reconcile_tenant_revision, e, l) refl
    ]
  ]

  reconcile_tenant-status :
      (now : ℕ) (storage : PolicySyncStorage) (s : Syncer Store) (t : Text)
      → (reconcile_tenant_revision lib db json now storage s t).0.status ≡ s.status
  unfolding reconcile_tenant_revision
  reconcile_tenant-status now storage s t = elim (Option-cases (storage.tenant_revision t)) [
    | inl e ↦ rw (reconcile_tenant_revision, e) refl
    | inr (r, e) ↦ elim (Bool-cases (ltb (get_tenant_revision s.engine.tenants t) r)) [
      | inl l ↦
          rw (reconcile_tenant_revision, e, l)
            (sync_tenant-IsSynced lib db json now storage s t r).same_status
      | inr l ↦ rw (reconcile_tenant_revision, e, l) refl
    ]
  ]

  -- One turn: the tenant reaches its revision, the others keep theirs.
  record IsTurned (target : Text → ℕ) (t : Text) (s u : Syncer Store) : Type 0 where
    arrived : get_tenant_revision u.engine.tenants t ≡ target t
    left_alone :
        (j : Text)
        → t ≢ j
        → get_tenant_revision u.engine.tenants j ≡ get_tenant_revision s.engine.tenants j
    no_store : u.badger_store ≡ none
    same_status : u.status ≡ s.status

  turn :
      (now : ℕ) (storage : PolicySyncStorage) (target : Text → ℕ) (s : Syncer Store) (t : Text)
      → s.badger_store ≡ none
      → IsServed lib storage t (target t)
      → get_tenant_revision s.engine.tenants t ≤ target t
      → IsTurned target t s (note_error (reconcile_tenant_revision lib db json now storage s t))
  turn now storage target s t n v h =
      let r = reconcile_tenant_revision lib db json now storage s t in
      let (none_left, reached, still) = reconcile_tenant-takes now storage s t (target t) n v h in
      let same : note_error r ≡ r.0 = ap (λ o. note_error (r.0, o)) none_left in
      rw same (record {
        arrived = reached;
        left_alone = λ j d. reconcile_tenant-isolated now storage s t j d;
        no_store = still;
        same_status = reconcile_tenant-status now storage s t;
      })

  -- The rest of a pass keeps the tenants that have arrived, and the others arrive.
  pass :
      (now : ℕ) (storage : PolicySyncStorage) (target : Text → ℕ) (ts : List Text)
      (s : Syncer Store)
      → s.badger_store ≡ none
      → ((t : Text) → In t ts → IsServed lib storage t (target t))
      → ((t : Text) → In t ts → get_tenant_revision s.engine.tenants t ≤ target t)
      → ((t : Text)
          → In t ts
          → get_tenant_revision (reconcile_tenants lib db json now storage ts s).engine.tenants t
            ≡ target t)
        × ((t : Text)
            → get_tenant_revision s.engine.tenants t ≡ target t
            → get_tenant_revision (reconcile_tenants lib db json now storage ts s).engine.tenants t
              ≡ target t)
        × ((reconcile_tenants lib db json now storage ts s).status ≡ s.status)
  unfolding reconcile_tenants
  pass now storage target [] s n v h = (λ t i. absurd i, λ t e. e, refl)
  pass now storage target (t ∷ ts) s n v h =
      let u = note_error (reconcile_tenant_revision lib db json now storage s t) in
      let w = turn now storage target s t n (v t (inl refl)) (h t (inl refl)) in
      let kept : (j : Text)
          → get_tenant_revision s.engine.tenants j ≡ target j
          → get_tenant_revision u.engine.tenants j ≡ target j =
        λ j e. elim (Bool-cases (text_eq t j)) [
          | inl q ↦ rw (← (text_eq_iff t j).0 q) w.arrived
          | inr q ↦ w.left_alone j (text_eq_ne t j q) ∙ e
        ] in
      let below : (j : Text) → In j ts → get_tenant_revision u.engine.tenants j ≤ target j = λ j i.
        elim (Bool-cases (text_eq t j)) [
          | inl q ↦ rw (← (text_eq_iff t j).0 q) (omega (arith, w.arrived))
          | inr q ↦ omega (arith, w.left_alone j (text_eq_ne t j q), h j (inr i))
        ] in
      let (all, still, status) =
        pass now storage target ts u w.no_store (λ j i. v j (inr i)) below in
      (
        λ j i. elim i [ inl e ↦ rw e (still t w.arrived) | inr k ↦ all j k ],
        λ j e. still j (kept j e),
        status ∙ w.same_status,
      )

  -- One pass of the reconciliation of a syncer without a local store catches up: where the database
  -- answers for every loaded tenant, with a revision that is not below the engine's and with a bundle
  -- of that revision that compiles and builds, every tenant that was loaded is at the database's
  -- revision after the pass, and the status is what it was.
  pub reconcile_catches_up :
      (now : ℕ) (storage : PolicySyncStorage) (target : Text → ℕ) (s : Syncer Store)
      → s.badger_store ≡ none
      → ((t : Text) → In t (map (λ e. e.0) s.engine.tenants) → IsServed lib storage t (target t))
      → ((t : Text)
          → In t (map (λ e. e.0) s.engine.tenants)
          → get_tenant_revision s.engine.tenants t ≤ target t)
      → ((t : Text)
          → In t (map (λ e. e.0) s.engine.tenants)
          → get_tenant_revision
              (reconcile_loaded_tenants lib db json now storage s).engine.tenants
              t
            ≡ target t)
        × ((reconcile_loaded_tenants lib db json now storage s).status ≡ s.status)
  unfolding reconcile_loaded_tenants
  reconcile_catches_up now storage target s n v h =
      let (all, still, status) =
        pass now storage target (map (λ e. e.0) s.engine.tenants) s n v h in
      (all, status)
