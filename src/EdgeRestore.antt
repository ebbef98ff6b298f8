-- ===== src/EdgeRestore.antt =====
-- The start of a data plane from its local snapshots in internal/engine/edge_restore.go. Neither
-- pointer is nil.
pub mod Installed
pub mod Republished
use standalone_policy_engine.Base.{
  ℕ, Bool, true, false, Option, none, some, List, [], ◌∷◌, length, map, if◌then◌else◌,
}
use standalone_policy_engine.Base.Text.{Text, text_eq}
use standalone_policy_engine.Ast.{PolicyNode}
use standalone_policy_engine.Platform.{Platform}
use standalone_policy_engine.Dag.{DagError}
use standalone_policy_engine.Trie.{TrieRoot}
use standalone_policy_engine.Engine.{
  Tenants, Build, built, failed, build_tenant_trie, state_with_tenant,
}
use standalone_policy_engine.Gc.{EngineWithGc, touch_tenant}
use standalone_policy_engine.PolicySet.{SetError, SetResult, ok, error, compile_policy_set}
use standalone_policy_engine.Snapshots.{
  PolicySnapshot, Read, read_error, missing, found, Database, Encoding, load_policy_snapshot,
  list_tenant_ids,
}

pub data RestoreError : Type 0 where
  engine_not_empty list_failed no_snapshots : RestoreError
  load_failed missing_or_mismatched : Text → RestoreError
  compile_failed : Text → SetError → RestoreError
  build_failed : Text → DagError → RestoreError

pub data Restored {ℓ} (A : Type ℓ) : Type ℓ where
  restored : A → Restored A
  refused : RestoreError → Restored A

abbrev pub of_build : Text → Build → Restored TrieRoot
of_build tenant (failed d) = refused (build_failed tenant d)
of_build tenant (built t) = restored t

abbrev pub with_policies : Text → PolicySnapshot → SetResult (List PolicyNode) → Restored TrieRoot
with_policies tenant s (error e) = refused (compile_failed tenant e)
with_policies tenant s (ok ps) =
    of_build tenant (build_tenant_trie tenant ps s.inheritances s.revision)

abbrev pub of_snapshot : Platform → Text → Read PolicySnapshot → Restored TrieRoot
of_snapshot lib tenant read_error = refused (load_failed tenant)
of_snapshot lib tenant missing = refused (missing_or_mismatched tenant)
of_snapshot lib tenant (found s) =
    if text_eq s.tenant_id tenant
    then with_policies tenant s (compile_policy_set lib s.policies)
    else refused (missing_or_mismatched tenant)

-- touchTenant for every tenant of the map
unfoldable pub touch_all : ℕ → Tenants → EngineWithGc → EngineWithGc
touch_all now [] e = e
touch_all now ((tenant, trie) ∷ ts) e =
    touch_all now ts (touch_tenant now tenant (length trie.global_policies) e)

module _ {Store Value : Type 0} (lib : Platform) (db : Database Store Value)
    (json : Encoding Value) where
  -- The body of the loop over the tenants.
  unfoldable pub restore_tenant : Store → Text → Restored TrieRoot
  restore_tenant store tenant = of_snapshot lib tenant (load_policy_snapshot db json store tenant)

  unfoldable pub restore_tenants : Store → List Text → Tenants → Restored Tenants
  restore_tenants store [] m = restored m
  restore_tenants store (t ∷ ts) m = elim (restore_tenant store t) [
    | refused e ↦ refused e
    | restored trie ↦ restore_tenants store ts (state_with_tenant m t trie)
  ]

  -- The part under the lock, on the engine that it finds there.
  abbrev pub install : ℕ → EngineWithGc → Restored Tenants → EngineWithGc × Option RestoreError
  install now e (refused x) = (e, some x)
  install now e (restored m) = elim e.tenants [
    | t ∷ ts ↦ (e, some engine_not_empty)
    | [] ↦ (touch_all now m (record e { tenants = m }), none)
  ]

  abbrev pub restore_listed :
      ℕ → EngineWithGc → Store → Option (List Text) → EngineWithGc × Option RestoreError
  restore_listed now e store none = (e, some list_failed)
  restore_listed now e store (some []) = (e, some no_snapshots)
  restore_listed now e store (some (t ∷ ts)) = install now e (restore_tenants store (t ∷ ts) [])

  -- RestoreEdgeSnapshots, on the tenants that it finds first and on the engine that it finds under
  -- the lock.
  unfoldable pub restore_edge_snapshots :
      ℕ → Tenants → EngineWithGc → Store → EngineWithGc × Option RestoreError
  restore_edge_snapshots now first e store = elim first [
    | t ∷ ts ↦ (e, some engine_not_empty)
    | [] ↦ restore_listed now e store (list_tenant_ids db json store)
  ]
