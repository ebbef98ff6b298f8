-- ===== src/Gc/Collector.antt =====
-- The garbage collection of idle tenants: what a cycle unloads.
use standalone_policy_engine.Base.{
  ℕ, ◌+◌, ◌<◌, ◌≡◌, refl, ap, inl, inr, ◌↔◌, none, List, [], ◌∷◌, In, Bool-cases, if◌then◌else◌,
  arith,
}
use standalone_policy_engine.Base.Text.{Text, text_eq, text_eq_iff}
use standalone_policy_engine.Dag.{find_entry, member}
use standalone_policy_engine.Dag.Lookup.{member_iff}
use standalone_policy_engine.Gc.{
  AccessRecord, EngineWithGc, unload_tenant, is_idle, idle_tenants, unload_all, run_gc_cycle,
}
use standalone_policy_engine.Engine.Updates.{find_entry-without}

find_entry-unload_tenant :
    (t j : Text) (e : EngineWithGc)
    → find_entry (unload_tenant t e).tenants j
      ≡ (if text_eq t j then none else find_entry e.tenants j)
unfolding unload_tenant
find_entry-unload_tenant t j e = ground (arith, find_entry-without e.tenants t j, text_eq_iff t j)

find_entry-unload_all :
    (ts : List Text) (j : Text) (e : EngineWithGc)
    → find_entry (unload_all ts e).tenants j
      ≡ (if member j ts then none else find_entry e.tenants j)
unfolding unload_all member
find_entry-unload_all [] j e = refl
find_entry-unload_all (t ∷ ts) j e = ground (
  arith,
  find_entry-unload_all ts j (unload_tenant t e),
  find_entry-unload_tenant t j e,
  text_eq_iff t j,
  text_eq_iff j t,
)

-- A record of the tenant that is idle at this time.
abbrev pub IsIdle : ℕ → EngineWithGc → Text → Type 0
IsIdle now e j =
    (r : AccessRecord) × In (j, r) e.access_records × (e.max_idle_time + r.last_access_nano < now)

In-idle_tenants :
    (now idle : ℕ) (rs : List (Text × AccessRecord)) (j : Text)
    → In j (idle_tenants now idle rs)
      ↔ ((r : AccessRecord) × In (j, r) rs × (idle + r.last_access_nano < now))
unfolding idle_tenants
In-idle_tenants now idle [] j = (λ m. absurd m, λ (r, m, h). absurd m)
In-idle_tenants now idle ((k, x) ∷ rs) j = elim (Bool-cases (is_idle now idle x)) [
  | inl y ↦ rw y (
    elim [
      | inl e ↦ (x, inl (ap (λ (n : Text). (n, x)) e), ground arith)
      | inr m ↦ let (r, i, h) = (In-idle_tenants now idle rs j).0 m in (r, inr i, h)
    ],
    λ (r, m, h). elim m [
      | inl e ↦ inl (ap (λ (p : Text × AccessRecord). p.0) e)
      | inr i ↦ inr ((In-idle_tenants now idle rs j).1 (r, i, h))
    ],
  )
  | inr n ↦ rw n (
    λ m. let (r, i, h) = (In-idle_tenants now idle rs j).0 m in (r, inr i, h),
    λ (r, m, h). elim m [
      | inl e ↦
          let q : r ≡ x = ap (λ (p : Text × AccessRecord). p.1) e in
          absurd (ground (arith, ap (λ (k : AccessRecord). k.last_access_nano) q))
      | inr i ↦ (In-idle_tenants now idle rs j).1 (r, i, h)
    ],
  )
]

-- After a cycle a tenant with an idle record is not loaded, and every other tenant has the trie
-- that it had, or none if it had none.
pub run_gc_cycle_lem :
    (now : ℕ) (e : EngineWithGc) (j : Text)
    → (IsIdle now e j → find_entry (run_gc_cycle now e).tenants j ≡ none)
      × ((¬ IsIdle now e j) → find_entry (run_gc_cycle now e).tenants j ≡ find_entry e.tenants j)
unfolding run_gc_cycle
run_gc_cycle_lem now e j =
    let ts = idle_tenants now e.max_idle_time e.access_records in
    (
      λ idle. rw (
        find_entry-unload_all ts j e,
        (member_iff j ts).1 ((In-idle_tenants now e.max_idle_time e.access_records j).1 idle),
      ),
      λ busy. rw (find_entry-unload_all ts j e) (elim (Bool-cases (member j ts)) [
        | inl m ↦ absurd (
            busy
              ((In-idle_tenants now e.max_idle_time e.access_records j).0 ((member_iff j ts).0 m)))
        | inr m ↦ rw m
      ]),
    )
