-- ===== src/EdgeRestore/Republished.antt =====
-- What a synchronisation publishes and saves is what a start from the local snapshots restores.
use standalone_policy_engine.Base.{
  ℕ, ◌<◌, none, some, List, ◌≡◌, refl, ap, ◌∙◌, inl, inr, Bool-cases, Option-cases, ltb, arith,
}
use standalone_policy_engine.Base.Text.{Text, text_eq_refl}
use standalone_policy_engine.Ast.{PolicyNode}
use standalone_policy_engine.Platform.{Platform}
use standalone_policy_engine.Dag.{find_entry}
use standalone_policy_engine.Trie.{TrieRoot}
use standalone_policy_engine.Engine.{Build, built, failed, build_tenant_trie, get_tenant_revision}
use standalone_policy_engine.Engine.Updates.{find_entry-with}
use standalone_policy_engine.Gc.{gc_update_with_revision}
use standalone_policy_engine.PolicySet.{SetResult, ok, error, compile_policy_set}
use standalone_policy_engine.Snapshots.{PolicySnapshot, Database, Encoding, save_policy_snapshot}
use standalone_policy_engine.Snapshots.Saved.{
  HasUtf8, IsDatabase, IsEncoding, save_policy_snapshot-load,
}
use standalone_policy_engine.Sync.{
  TenantPolicyBundle, PolicySyncStorage, Syncer, snapshot_of, save_edge_snapshot, after_update,
  publish_bundle, sync_tenant_with_revision,
}
use standalone_policy_engine.Sync.Catching.{gc_update-fresh}
use standalone_policy_engine.EdgeRestore.{restored, restore_tenant}

module _ {Store Value : Type 0} (lib : Platform) (db : Database Store Value)
    (json : Encoding Value) where
  -- The tenant's trie is in the engine and comes out of the local store.
  pub record IsDurable (s : Syncer Store) (tenant : Text) : Type 0 where
    pub store : Store
    pub trie : TrieRoot
    pub has_store : s.badger_store ≡ some store
    pub in_engine : find_entry s.engine.tenants tenant ≡ some trie
    pub in_store : restore_tenant lib db json store tenant ≡ restored trie

  restored-saved :
      IsDatabase Store Value db
      → IsEncoding Value json
      → (store t : Store) (x : PolicySnapshot) (ps : List PolicyNode) (trie : TrieRoot) → HasUtf8 x
      → save_policy_snapshot db json store x ≡ some t
      → compile_policy_set lib x.policies ≡ ok ps
      → build_tenant_trie x.tenant_id ps x.inheritances x.revision ≡ built trie
      → restore_tenant lib db json t x.tenant_id ≡ restored trie
  unfolding restore_tenant
  restored-saved laws reads store t x ps trie u h c b =
      let (loaded, others) = save_policy_snapshot-load db json laws reads store t x u h in
      rw (restore_tenant, loaded, text_eq_refl x.tenant_id, c, b) refl

  save_edge-IsDurable :
      IsDatabase Store Value db
      → IsEncoding Value json
      → (store : Store) (x : PolicySnapshot) (s : Syncer Store) (ps : List PolicyNode)
        (trie : TrieRoot)
      → HasUtf8 x
      → s.badger_store ≡ some store
      → find_entry s.engine.tenants x.tenant_id ≡ some trie
      → compile_policy_set lib x.policies ≡ ok ps
      → build_tenant_trie x.tenant_id ps x.inheritances x.revision ≡ built trie
      → (save_edge_snapshot lib db json x s).1 ≡ none
      → IsDurable (save_edge_snapshot lib db json x s).0 x.tenant_id
  unfolding save_edge_snapshot
  save_edge-IsDurable laws reads store x s ps trie u k f c b h =
      elim (Option-cases (save_policy_snapshot db json store x)) [
        | inl l ↦ let g = rw (save_edge_snapshot, k, l) at h in cc
        | inr (t, l) ↦
            rw (save_edge_snapshot, k, l)
              (record {
                store = t;
                trie = trie;
                has_store = refl;
                in_engine = f;
                in_store = restored-saved laws reads store t x ps trie u l c b;
              })
      ]

  update-IsDurable :
      IsDatabase Store Value db
      → IsEncoding Value json
      → (now : ℕ) (s : Syncer Store) (store : Store) (tenant : Text) (b : TenantPolicyBundle)
        (ps : List PolicyNode) (t : Build)
      → HasUtf8 (snapshot_of now tenant b)
      → s.badger_store ≡ some store
      → compile_policy_set lib b.policies ≡ ok ps
      → build_tenant_trie tenant ps b.inheritances b.revision ≡ t
      → get_tenant_revision s.engine.tenants tenant < b.revision
      → (after_update lib db json
          (snapshot_of now tenant b)
          s
          (gc_update_with_revision now s.engine tenant ps b.inheritances b.revision)).1
        ≡ none
      → IsDurable
          (after_update lib db json
            (snapshot_of now tenant b)
            s
            (gc_update_with_revision now s.engine tenant ps b.inheritances b.revision)).0
          tenant
  unfolding gc_update_with_revision
  update-IsDurable laws reads now s store tenant b ps (failed d) w k c q l h =
      let g = rw (gc_update_with_revision, q) at h in cc
  update-IsDurable laws reads now s store tenant b ps (built x) w k c q l h =
      let u = gc_update_with_revision now s.engine tenant ps b.inheritances b.revision in
      let (tenants, result) =
        gc_update-fresh now s.engine tenant ps b.inheritances b.revision x q l in
      let pair : u ≡ (u.0, none) = ap (λ o. (u.0, o)) result in
      let entry : find_entry u.0.tenants tenant ≡ some x =
        ap (λ z. find_entry z tenant) tenants
        ∙ find_entry-with s.engine.tenants tenant tenant x
        ∙ rw (text_eq_refl tenant) refl in
      let g = rw pair at h in
      rw pair (
        save_edge-IsDurable laws reads store (snapshot_of now tenant b) (record s { engine = u.0 })
          ps x w k entry c q g)

  publish-IsDurable :
      IsDatabase Store Value db
      → IsEncoding Value json
      → (now : ℕ) (s : Syncer Store) (store : Store) (tenant : Text) (revision : ℕ)
        (b : TenantPolicyBundle) (r : SetResult (List PolicyNode))
      → HasUtf8 (snapshot_of now tenant b)
      → s.badger_store ≡ some store
      → get_tenant_revision s.engine.tenants tenant < revision
      → compile_policy_set lib b.policies ≡ r
      → (publish_bundle lib db json now s tenant revision b r).1 ≡ none
      → IsDurable (publish_bundle lib db json now s tenant revision b r).0 tenant
  publish-IsDurable laws reads now s store tenant revision b (error e) w k l c h = cc
  publish-IsDurable laws reads now s store tenant revision b (ok ps) w k l c h =
      elim (Bool-cases (ltb b.revision revision)) [
        | inl a ↦ let g = rw a at h in cc
        | inr a ↦
            let g = rw a at h in
            rw a (
              update-IsDurable laws reads now s store tenant b ps
                (build_tenant_trie tenant ps b.inheritances b.revision) w k c refl (ground arith) g)
      ]

  -- Where SyncTenantWithRevision returns no error, on a syncer with a local store and for a revision
  -- above the engine's, the trie of the tenant that the engine then answers from is the one that a
  -- start from the local store would restore; for a database that reads a key back as it was set and
  -- leaves the other keys alone, an encoding that reads a snapshot back as it was written where its
  -- texts are valid UTF-8, and a bundle of valid UTF-8.
  pub sync_tenant-IsDurable :
      IsDatabase Store Value db
      → IsEncoding Value json
      → (now : ℕ) (storage : PolicySyncStorage) (s : Syncer Store) (store : Store) (tenant : Text)
        (revision : ℕ)
      → ((b : TenantPolicyBundle)
          → storage.tenant_policy_bundle tenant ≡ some b
          → HasUtf8 (snapshot_of now tenant b))
      → s.badger_store ≡ some store
      → get_tenant_revision s.engine.tenants tenant < revision
      → (sync_tenant_with_revision lib db json now storage s tenant revision).1 ≡ none
      → IsDurable (sync_tenant_with_revision lib db json now storage s tenant revision).0 tenant
  unfolding sync_tenant_with_revision
  sync_tenant-IsDurable laws reads now storage s store tenant revision w k l h =
      elim (Option-cases (storage.tenant_policy_bundle tenant)) [
        | inl e ↦ let g = rw (sync_tenant_with_revision, e) at h in cc
        | inr (b, e) ↦
            let g = rw (sync_tenant_with_revision, e) at h in
            rw (sync_tenant_with_revision, e)
              (publish-IsDurable laws reads now s store tenant revision b
                (compile_policy_set lib b.policies) (w b e) k l refl g)
      ]
