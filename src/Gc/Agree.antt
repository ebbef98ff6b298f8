-- ===== src/Gc/Agree.antt =====
-- The engine with a collector against the plain engine.
use standalone_policy_engine.Base.{ℕ, ◌≡◌, refl, false, Option, some, List, arith}
use standalone_policy_engine.Base.Text.{Text}
use standalone_policy_engine.Ast.{PolicyNode}
use standalone_policy_engine.Platform.{Platform}
use standalone_policy_engine.Dag.{find_entry}
use standalone_policy_engine.Trie.{TrieRoot}
use standalone_policy_engine.Decision.{Request, check_permission}
use standalone_policy_engine.Engine.{
  update_tenant_policies, update_tenant_policies_with_revision, engine_check_permission,
}
use standalone_policy_engine.Gc.{
  EngineWithGc, LazyLoader, touch_tenant, with_revision, answer, gc_check_permission,
  gc_update_tenant_policies, gc_update_with_revision,
}

-- Both updates of EngineWithGC change its tenants, and return errors, exactly as those of Engine do.
pub updates_agree :
    (now : ℕ) (e : EngineWithGc) (t : Text) (ps : List PolicyNode) (pairs : List (Text × Text))
    (revision : ℕ)
    → ((
      (gc_update_tenant_policies now e t ps pairs).0.tenants,
      (gc_update_tenant_policies now e t ps pairs).1,
    )
        ≡ update_tenant_policies e.tenants t ps pairs)
      × ((
        (gc_update_with_revision now e t ps pairs revision).0.tenants,
        (gc_update_with_revision now e t ps pairs revision).1,
      )
          ≡ update_tenant_policies_with_revision e.tenants t ps pairs revision)
unfolding gc_update_tenant_policies gc_update_with_revision update_tenant_policies
    update_tenant_policies_with_revision touch_tenant
updates_agree now e t ps pairs revision = (ground arith, ground arith)

-- On a loaded tenant CheckPermission of EngineWithGC answers as that of Engine, with the revision of
-- the tenant's trie, and leaves the tenants as they are, whatever the lazy loader.
pub check_agrees :
    (lib : Platform) (now : ℕ) (loader : Option LazyLoader) (e : EngineWithGc) (t : Text)
    (r : Request) (trie : TrieRoot)
    → find_entry e.tenants t ≡ some trie
    → ((gc_check_permission lib false now loader e t r).0.tenants ≡ e.tenants)
      × ((gc_check_permission lib false now loader e t r).1
          ≡ with_revision trie (engine_check_permission lib false e.tenants t r))
unfolding gc_check_permission engine_check_permission answer check_permission touch_tenant
check_agrees lib now loader e t r trie h =
    rw (h, gc_check_permission, engine_check_permission) (refl, refl)
