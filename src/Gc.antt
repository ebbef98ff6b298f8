-- ===== src/Gc.antt =====
-- The engine with a garbage collector of internal/engine/engine_gc.go: it records when a tenant was
-- last used, unloads idle ones, and loads a missing one by a callback. Times are in nanoseconds, and
-- the clock's reading is an argument `now`.
pub mod Collector
pub mod Agree
pub mod Grounds
use standalone_policy_engine.Base.{
  ℕ, zero, suc, ◌+◌, ◌*◌, Bool, true, false, not, Option, none, some, List, [], ◌∷◌, keep_if,
  length, if◌then◌else◌, ltb, ◌==◌,
}
use standalone_policy_engine.Base.Text.{Text, text_eq}
use standalone_policy_engine.Ast.{PolicyNode}
use standalone_policy_engine.Platform.{Platform}
use standalone_policy_engine.Dag.{find_entry}
use standalone_policy_engine.Trie.{TrieRoot}
use standalone_policy_engine.Decision.{
  DecisionResult, Request, deny_with, deny_canceled, deny_tenant_not_loaded, check_permission,
}
use standalone_policy_engine.Engine.{
  Tenants, Build, built, failed, build_tenant_trie, state_without_tenant, state_with_tenant,
  revision_is_stale, revision_is_duplicate, UpdateError, build_error, stale_revision, next_revision,
}

pub record AccessRecord : Type 0 where
  pub last_access_nano : ℕ
  pub policy_count : ℕ

-- GCConfig, in nanoseconds; a duration that is not positive is 0.
pub record GcConfig : Type 0 where
  pub enabled : Bool
  pub interval : ℕ
  pub idle_timeout : ℕ

pub record EngineWithGc : Type 0 where
  pub tenants : Tenants
  pub access_records : List (Text × AccessRecord)
  pub gc_enabled : Bool
  pub gc_interval : ℕ
  pub max_idle_time : ℕ

abbrev pub hour : ℕ
hour = 3600000000000

unfoldable pub new_engine_with_gc : GcConfig → EngineWithGc
new_engine_with_gc cfg = record {
  tenants = [];
  access_records = [];
  gc_enabled = cfg.enabled;
  gc_interval = if cfg.interval == 0 then hour else cfg.interval;
  max_idle_time = if cfg.idle_timeout == 0 then 24 * hour else cfg.idle_timeout;
}

-- r.lastAccessNano.Store(now), and the count where it is positive
unfoldable pub stamp : ℕ → ℕ → AccessRecord → AccessRecord
stamp now count r = record {
  last_access_nano = now;
  policy_count = if ltb 0 count then count else r.policy_count;
}

-- LoadOrStore of the tenant's record, and its stamp.
unfoldable pub touch_records :
    ℕ → Text → ℕ → List (Text × AccessRecord) → List (Text × AccessRecord)
touch_records now tenant count [] =
    (tenant, stamp now count (record { last_access_nano = 0; policy_count = 0 })) ∷ []
touch_records now tenant count ((k, r) ∷ rs) =
    let rest = touch_records now tenant count rs in
    if text_eq k tenant then (k, stamp now count r) ∷ rs else (k, r) ∷ rest

unfoldable pub touch_tenant : ℕ → Text → ℕ → EngineWithGc → EngineWithGc
touch_tenant now tenant count e = record e {
  access_records = touch_records now tenant count e.access_records;
}

-- The callback that loads a tenant: the engine after it, and whether it returned an error.
abbrev pub LazyLoader : Type 0
LazyLoader = EngineWithGc → Text → EngineWithGc × Bool

unfoldable pub after_load : ℕ → Text → EngineWithGc × Bool → EngineWithGc × Option TrieRoot
after_load now tenant (e, true) = (e, none)
after_load now tenant (e, false) = elim (find_entry e.tenants tenant) [
  | none ↦ (e, none)
  | some t ↦ (touch_tenant now tenant 0 e, some t)
]

-- GetTenantTrie of EngineWithGC
unfoldable pub get_tenant_trie :
    ℕ → Option LazyLoader → EngineWithGc → Text → EngineWithGc × Option TrieRoot
get_tenant_trie now loader e tenant = elim (find_entry e.tenants tenant) [
  | some t ↦ (touch_tenant now tenant (length e.tenants) e, some t)
  | none ↦ elim loader [ none ↦ (e, none) | some load ↦ after_load now tenant (load e tenant) ]
]

unfoldable pub with_revision : TrieRoot → DecisionResult → DecisionResult
with_revision t r = record r { policy_revision = t.revision }

unfoldable pub answer :
    Platform → Request → EngineWithGc × Option TrieRoot → EngineWithGc × DecisionResult
answer lib r (e, none) = (e, deny_with deny_tenant_not_loaded)
answer lib r (e, some t) = (e, with_revision t (check_permission lib false (some t) r))

-- CheckPermission of EngineWithGC. `canceled` is read once: the second ctx.Err() test, in the
-- package's CheckPermission, is taken to see the same.
unfoldable pub gc_check_permission :
    Platform
    → Bool
    → ℕ
    → Option LazyLoader
    → EngineWithGc
    → Text
    → Request
    → EngineWithGc × DecisionResult
gc_check_permission lib canceled now loader e tenant r =
    if canceled then (e, deny_with deny_canceled) else elim (find_entry e.tenants tenant) [
      | some t ↦ answer lib r (touch_tenant now tenant 0 e, some t)
      | none ↦ answer lib r (get_tenant_trie now loader e tenant)
    ]

-- UnloadTenant
unfoldable pub unload_tenant : Text → EngineWithGc → EngineWithGc
unload_tenant tenant e = elim (find_entry e.tenants tenant) [
  | none ↦ e
  | some t ↦ record e {
    tenants = state_without_tenant e.tenants tenant;
    access_records = keep_if (λ k. not (text_eq k.0 tenant)) e.access_records;
  }
]

-- nowNano - lastAccess > idleNano, on integers
abbrev pub is_idle : ℕ → ℕ → AccessRecord → Bool
is_idle now idle r = ltb (idle + r.last_access_nano) now

-- The keys that Range collects.
unfoldable pub idle_tenants : ℕ → ℕ → List (Text × AccessRecord) → List Text
idle_tenants now idle [] = []
idle_tenants now idle ((k, r) ∷ rs) =
    let rest = idle_tenants now idle rs in if is_idle now idle r then k ∷ rest else rest

unfoldable pub unload_all : List Text → EngineWithGc → EngineWithGc
unload_all [] e = e
unload_all (t ∷ ts) e = unload_all ts (unload_tenant t e)

unfoldable pub run_gc_cycle : ℕ → EngineWithGc → EngineWithGc
run_gc_cycle now e = unload_all (idle_tenants now e.max_idle_time e.access_records) e

unfoldable pub gc_update_tenant_policies :
    ℕ
    → EngineWithGc
    → Text
    → List PolicyNode
    → List (Text × Text)
    → EngineWithGc × Option UpdateError
gc_update_tenant_policies now e tenant policies inheritances =
    elim (build_tenant_trie tenant policies inheritances 0) [
      | failed d ↦ (e, some (build_error d))
      | built t ↦ (
        touch_tenant now tenant (length policies) (record e {
          tenants =
              state_with_tenant e.tenants tenant
                (record t { revision = next_revision e.tenants tenant });
        }),
        none,
      )
    ]

unfoldable pub gc_update_with_revision :
    ℕ
    → EngineWithGc
    → Text
    → List PolicyNode
    → List (Text × Text)
    → ℕ
    → EngineWithGc × Option UpdateError
gc_update_with_revision now e tenant policies inheritances revision =
    elim (build_tenant_trie tenant policies inheritances revision) [
      | failed d ↦ (e, some (build_error d))
      | built t ↦
          if revision_is_stale e.tenants tenant revision
          then (e, some stale_revision)
          else if revision_is_duplicate e.tenants tenant revision
          then (e, none)
          else (
            touch_tenant now tenant (length policies)
                (record e { tenants = state_with_tenant e.tenants tenant t }),
            none,
          )
    ]
