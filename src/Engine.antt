-- ===== src/Engine.antt =====
-- The engine's state in internal/engine/engine.go and state_writer.go: one immutable
-- trie for each tenant, replaced by copy on write under a lock. A writer's critical section is one
-- step here, and a map is an association list with one entry for a key.
pub mod Updates
pub mod Revisions
pub mod Access
use standalone_policy_engine.Base.{
  ℕ, zero, suc, ◌+◌, ◌-◌, ◌*◌, ◌%◌, ◌^◌, Bool, true, false, not, ◌&&◌, Option, none, some, List, [],
  ◌∷◌, ◌++◌, foldl, keep_if, length, if◌then◌else◌, ltb, leb, ◌==◌,
}
use standalone_policy_engine.Base.Text.{Text, text_eq}
use standalone_policy_engine.Ast.{PolicyNode}
use standalone_policy_engine.Platform.{Platform}
use standalone_policy_engine.Dag.{
  RoleDag, DagError, AddResult, added, rejected, add_inheritance, find_entry,
}
use standalone_policy_engine.Trie.{TrieRoot, new_trie_root, add_policy}
use standalone_policy_engine.Decision.{
  DecisionResult, Request, deny_with, deny_canceled, deny_tenant_not_found, deny_tenant_not_loaded,
  check_permission, evaluate_permission,
}

abbrev pub Tenants : Type 0
Tenants = List (Text × TrieRoot)

-- The first error of AddInheritance, or the hierarchy with all the pairs.
unfoldable pub add_all : RoleDag → List (Text × Text) → AddResult
add_all g [] = added g
add_all g ((p, c) ∷ pairs) = elim (add_inheritance g p c) [
  | rejected e ↦ rejected e
  | added h ↦ add_all h pairs
]

pub data Build : Type 0 where
  built : TrieRoot → Build
  failed : DagError → Build

unfoldable pub build_tenant_trie : Text → List PolicyNode → List (Text × Text) → ℕ → Build
build_tenant_trie tenant policies inheritances revision =
    let trie = new_trie_root tenant in
    elim (add_all trie.role_dag inheritances) [
      | rejected e ↦ failed e
      | added g ↦
          built (foldl add_policy (record trie { revision = revision; role_dag = g }) policies)
    ]

unfoldable pub state_without_tenant : Tenants → Text → Tenants
state_without_tenant old tenant = keep_if (λ e. not (text_eq e.0 tenant)) old

unfoldable pub state_with_tenant : Tenants → Text → TrieRoot → Tenants
state_with_tenant old tenant trie = state_without_tenant old tenant ++ (tenant, trie) ∷ []

unfoldable pub revision_is_stale : Tenants → Text → ℕ → Bool
revision_is_stale old tenant revision = elim (find_entry old tenant) [
  | none ↦ false
  | some current ↦ ltb 0 revision && ltb revision current.revision
]

unfoldable pub revision_is_duplicate : Tenants → Text → ℕ → Bool
revision_is_duplicate old tenant revision = elim (find_entry old tenant) [
  | none ↦ false
  | some current ↦ ltb 0 revision && revision == current.revision
]

pub data UpdateError : Type 0 where
  build_error : DagError → UpdateError
  stale_revision : UpdateError

-- The error that an update returns, none for nil.
abbrev pub Updated : Type 0
Updated = Tenants × Option UpdateError

-- GetTenantRevision, 0 for a tenant that is not loaded.
unfoldable pub get_tenant_revision : Tenants → Text → ℕ
get_tenant_revision s tenant = elim (find_entry s tenant) [ none ↦ 0 | some t ↦ t.revision ]

unfoldable pub get_tenant_schema : Tenants → Text → List Text
get_tenant_schema s tenant = elim (find_entry s tenant) [
  | none ↦ []
  | some t ↦ t.required_attributes
]

-- current.Revision + 1 on a uint64
unfoldable pub next_revision : Tenants → Text → ℕ
next_revision s tenant = elim (find_entry s tenant) [
  | none ↦ 1
  | some current ↦ (current.revision + 1) % 2 ^ 64
]

unfoldable pub update_tenant_policies :
    Tenants → Text → List PolicyNode → List (Text × Text) → Updated
update_tenant_policies s tenant policies inheritances =
    elim (build_tenant_trie tenant policies inheritances 0) [
      | failed e ↦ (s, some (build_error e))
      | built t ↦
          (state_with_tenant s tenant (record t { revision = next_revision s tenant }), none)
    ]

unfoldable pub update_tenant_policies_with_revision :
    Tenants → Text → List PolicyNode → List (Text × Text) → ℕ → Updated
update_tenant_policies_with_revision s tenant policies inheritances revision =
    elim (build_tenant_trie tenant policies inheritances revision) [
      | failed e ↦ (s, some (build_error e))
      | built t ↦
          if revision_is_stale s tenant revision
          then (s, some stale_revision)
          else if revision_is_duplicate s tenant revision
          then (s, none)
          else (state_with_tenant s tenant t, none)
    ]

-- Engine.CheckPermission
unfoldable pub engine_check_permission : Platform → Bool → Tenants → Text → Request → DecisionResult
engine_check_permission lib canceled s tenant r =
    if canceled then deny_with deny_canceled else elim (find_entry s tenant) [
      | none ↦ deny_with deny_tenant_not_found
      | some t ↦ evaluate_permission lib t r
    ]
