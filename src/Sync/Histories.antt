-- ===== src/Sync/Histories.antt =====
-- Any sequence of the steps of the listener and of the ticker.
use standalone_policy_engine.Base.{
  ℕ, ◌<◌, ◌≤◌, Option, none, some, List, [], ◌∷◌, map, ◌≡◌, refl, sym, ap, inl, inr, Bool-cases,
  Option-cases, ltb, arith,
}
use native.Mathlib.Nat.{le_of_eq}
use standalone_policy_engine.Base.Text.{Text, text_eq, text_eq_iff, text_eq_ne}
use standalone_policy_engine.Platform.{Platform}
use standalone_policy_engine.Dag.{find_entry}
use standalone_policy_engine.Trie.{TrieRoot}
use standalone_policy_engine.Engine.{Tenants, get_tenant_revision}
use standalone_policy_engine.Snapshots.{Database, Encoding}
use standalone_policy_engine.Sync.{
  TenantPolicyBundle, PolicySyncStorage, PolicyUpdateEvent, Syncer, SyncError, note_error,
  sync_tenant_with_revision, should_sync_revision, handle_event, listening, connection_lost,
  reconcile_tenant_revision, reconcile_tenants, reconcile_loaded_tenants,
}
use standalone_policy_engine.Sync.Outcomes.{sync_tenant-IsSynced}

-- Every bundle that the database has carries a positive revision.
abbrev pub IsNumbered : PolicySyncStorage → Type 0
IsNumbered storage =
    (t : Text) (b : TenantPolicyBundle) → storage.tenant_policy_bundle t ≡ some b → 0 < b.revision

pub get_tenant_revision-same :
    (s u : Tenants) (j : Text)
    → find_entry s j ≡ find_entry u j
    → get_tenant_revision s j ≡ get_tenant_revision u j
unfolding get_tenant_revision
get_tenant_revision-same s u j h =
    ap (λ (o : Option TrieRoot). elim o [ none ↦ 0 | some t ↦ t.revision ]) h

-- The two workers, in any interleaving of their steps: the clock and the database's answers are of
-- the step.
pub data Steps {Store Value : Type 0} (lib : Platform) (db : Database Store Value)
    (json : Encoding Value) (s : Syncer Store) : Syncer Store → Type 0 where
  start : Steps lib db json s s
  event :
      {u : Syncer Store} (now : ℕ) (storage : PolicySyncStorage) (ev : PolicyUpdateEvent)
      → IsNumbered storage
      → Steps lib db json s u
      → Steps lib db json s (handle_event lib db json now storage ev u)
  reconcile :
      {u : Syncer Store} (now : ℕ) (storage : PolicySyncStorage)
      → IsNumbered storage
      → Steps lib db json s u
      → Steps lib db json s (reconcile_loaded_tenants lib db json now storage u)
  listens : {u : Syncer Store} → Steps lib db json s u → Steps lib db json s (listening u)
  loses : {u : Syncer Store} → Steps lib db json s u → Steps lib db json s (connection_lost u)

module _ {Store Value : Type 0} (lib : Platform) (db : Database Store Value)
    (json : Encoding Value) where
  abbrev revision_in : Syncer Store → Text → ℕ
  revision_in s t = get_tenant_revision s.engine.tenants t

  note_error-engine : (r : Syncer Store × Option SyncError) → (note_error r).engine ≡ r.0.engine
  note_error-engine (s, none) = refl
  note_error-engine (s, some e) = refl

  sync-forward :
      (now : ℕ) (storage : PolicySyncStorage) (s : Syncer Store) (t : Text) (revision : ℕ)
      (j : Text)
      → IsNumbered storage
      → revision_in s j
        ≤ revision_in (sync_tenant_with_revision lib db json now storage s t revision).0 j
  sync-forward now storage s t revision j n =
      let v = sync_tenant-IsSynced lib db json now storage s t revision in
      elim (Bool-cases (text_eq t j)) [
        | inl e ↦ rw (← (text_eq_iff t j).0 e) (v.forward (n t))
        | inr e ↦ le_of_eq (sym (get_tenant_revision-same _ _ j (v.isolated j (text_eq_ne t j e))))
      ]

  handle-forward :
      (now : ℕ) (storage : PolicySyncStorage) (ev : PolicyUpdateEvent) (s : Syncer Store) (j : Text)
      → IsNumbered storage
      → revision_in s j ≤ revision_in (handle_event lib db json now storage ev s) j
  unfolding handle_event
  handle-forward now storage ev s j n =
      elim (Bool-cases
        (should_sync_revision (get_tenant_revision s.engine.tenants ev.tenant_id) ev.revision)) [
          | inl e ↦
              rw
                (
                  handle_event,
                  e,
                  note_error-engine (
                      sync_tenant_with_revision lib db json now storage s ev.tenant_id ev.revision),
                )
                (sync-forward now storage s ev.tenant_id ev.revision j n)
          | inr e ↦ rw (handle_event, e) (omega arith)
        ]

  reconcile_tenant-forward :
      (now : ℕ) (storage : PolicySyncStorage) (s : Syncer Store) (t j : Text)
      → IsNumbered storage
      → revision_in s j ≤ revision_in (reconcile_tenant_revision lib db json now storage s t).0 j
  unfolding reconcile_tenant_revision
  reconcile_tenant-forward now storage s t j n = elim (Option-cases (storage.tenant_revision t)) [
    | inl e ↦ rw (reconcile_tenant_revision, e) (omega arith)
    | inr (r, e) ↦ elim (Bool-cases (ltb (get_tenant_revision s.engine.tenants t) r)) [
      | inl l ↦ rw (reconcile_tenant_revision, e, l) (sync-forward now storage s t r j n)
      | inr l ↦ rw (reconcile_tenant_revision, e, l) (omega arith)
    ]
  ]

  reconcile_tenants-forward :
      (now : ℕ) (storage : PolicySyncStorage) (ts : List Text) (s : Syncer Store) (j : Text)
      → IsNumbered storage
      → revision_in s j ≤ revision_in (reconcile_tenants lib db json now storage ts s) j
  unfolding reconcile_tenants
  reconcile_tenants-forward now storage [] s j n = omega arith
  reconcile_tenants-forward now storage (t ∷ ts) s j n =
      let r = reconcile_tenant_revision lib db json now storage s t in
      omega (
        arith,
        reconcile_tenant-forward now storage s t j n,
        le_of_eq (ap (λ e. get_tenant_revision e.tenants j) (sym (note_error-engine r))),
        reconcile_tenants-forward now storage ts (note_error r) j n,
      )

  -- Whatever the order of events, passes of the reconciliation, connections and disconnections, and
  -- whatever the database answers, no tenant's revision in the engine ever falls, as long as the
  -- bundles that the database returns carry positive revisions.
  pub sync_monotone :
      (s u : Syncer Store) (j : Text) → Steps lib db json s u → revision_in s j ≤ revision_in u j
  unfolding reconcile_loaded_tenants
  sync_monotone s u j start = omega arith
  sync_monotone s u j (event {u = v} now storage ev n past) =
      omega (arith, sync_monotone s v j past, handle-forward now storage ev v j n)
  sync_monotone s u j (reconcile {u = v} now storage n past) = omega (
    arith,
    sync_monotone s v j past,
    reconcile_tenants-forward now storage (map (λ e. e.0) v.engine.tenants) v j n,
  )
  sync_monotone s u j (listens {u = v} past) = sync_monotone s v j past
  sync_monotone s u j (loses {u = v} past) = sync_monotone s v j past
