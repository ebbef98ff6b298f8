-- ===== src/Engine/Revisions.antt =====
-- Revisions of a tenant under updates that carry one.
use native.Mathlib.Nat.{le_of_eq}
use standalone_policy_engine.Base.{
  ℕ, ◌<◌, ◌≤◌, ◌≡◌, ◌≢◌, ◌⊎◌, refl, sym, ap, ◌∙◌, inl, inr, Bool, true, false, Option, none, some,
  List, Bool-cases, if◌then◌else◌, arith,
}
use standalone_policy_engine.Base.Text.{
  Text, text_eq, text_eq_iff, text_eq_refl, text_eq_of_ne, text_eq_ne,
}
use standalone_policy_engine.Ast.{PolicyNode}
use standalone_policy_engine.Dag.{RoleDag, DagError, added, rejected, new_role_dag, find_entry}
use standalone_policy_engine.Trie.{TrieRoot}
use standalone_policy_engine.Trie.Keys.{index}
use standalone_policy_engine.Engine.{
  Tenants, add_all, Build, built, failed, build_tenant_trie, state_with_tenant, revision_is_stale,
  revision_is_duplicate, UpdateError, build_error, stale_revision, Updated, get_tenant_revision,
  update_tenant_policies_with_revision,
}
use standalone_policy_engine.Engine.Updates.{
  base_trie, find_entry-with, build_tenant_trie-built, build_tenant_trie-failed,
  get_tenant_revision-with, revision-built,
}

-- A state with the tenant as it is rebuilt from the given policies and pairs.
pub record IsRebuilt (s : Tenants) (t : Text) (ps : List PolicyNode) (pairs : List (Text × Text))
    (revision : ℕ) (u : Tenants) : Type 0 where
  pub hierarchy : RoleDag
  pub from_pairs : add_all new_role_dag pairs ≡ added hierarchy
  pub entry : find_entry u t ≡ some (index (base_trie t revision hierarchy) ps)
  pub newer : 0 < revision → get_tenant_revision s t < revision

-- A state that an update leaves alone, since the tenant is at its revision.
pub record IsDuplicate (s : Tenants) (t : Text) (revision : ℕ) (u : Tenants) : Type 0 where
  pub same : u ≡ s
  pub positive : 0 < revision
  pub current : get_tenant_revision s t ≡ revision

-- What an update that carries a revision did.
pub record IsRevised (s : Tenants) (t : Text) (ps : List PolicyNode) (pairs : List (Text × Text))
    (revision : ℕ) (u : Updated) : Type 0 where
  pub accepted : u.1 ≡ none → IsDuplicate s t revision u.0 ⊎ IsRebuilt s t ps pairs revision u.0
  pub reached : u.1 ≡ none → get_tenant_revision u.0 t ≡ revision
  pub stale :
      u.1 ≡ some stale_revision → (u.0 ≡ s) × (0 < revision) × (revision < get_tenant_revision s t)
  pub refused :
      (d : DagError)
      → u.1 ≡ some (build_error d)
      → (u.0 ≡ s) × (add_all new_role_dag pairs ≡ rejected d)
  pub others : (j : Text) → t ≢ j → find_entry u.0 j ≡ find_entry s j

stale_lt :
    (s : Tenants) (t : Text) (revision : ℕ)
    → revision_is_stale s t revision ≡ true
    → (0 < revision) × (revision < get_tenant_revision s t)
unfolding revision_is_stale get_tenant_revision
stale_lt s t revision e = (ground arith, ground arith)

fresh-lt :
    (s : Tenants) (t : Text) (revision : ℕ)
    → revision_is_stale s t revision ≡ false
    → revision_is_duplicate s t revision ≡ false
    → 0 < revision
    → get_tenant_revision s t < revision
unfolding revision_is_stale revision_is_duplicate get_tenant_revision
fresh-lt s t revision e f h = ground arith

duplicate-eq :
    (s : Tenants) (t : Text) (revision : ℕ)
    → revision_is_duplicate s t revision ≡ true
    → (0 < revision) × (get_tenant_revision s t ≡ revision)
unfolding revision_is_duplicate get_tenant_revision
duplicate-eq s t revision e = (ground arith, ground arith)

by_tests :
    (s : Tenants) (t : Text) (ps : List PolicyNode) (pairs : List (Text × Text)) (revision : ℕ)
    (x : TrieRoot) (a b : Bool)
    → revision_is_stale s t revision ≡ a
    → revision_is_duplicate s t revision ≡ b
    → build_tenant_trie t ps pairs revision ≡ built x
    → IsRevised s t ps pairs revision (
        if a
        then (s, some stale_revision)
        else if b
        then (s, none)
        else (state_with_tenant s t x, none))
by_tests s t ps pairs revision x true b ea eb q =
    let (positive, lower) = stale_lt s t revision ea in
    record {
      accepted = λ k. cc;
      reached = λ k. cc;
      stale = λ k. (refl, positive, lower);
      refused = λ d k. cc;
      others = λ j n. refl;
    }
by_tests s t ps pairs revision x false true ea eb q =
    let (positive, current) = duplicate-eq s t revision eb in
    record {
      accepted = λ k. inl (record { same = refl; positive = positive; current = current });
      reached = λ k. current;
      stale = λ k. cc;
      refused = λ d k. cc;
      others = λ j n. refl;
    }
by_tests s t ps pairs revision x false false ea eb q =
    let (g, from_pairs, v, made) = build_tenant_trie-built t ps pairs revision x q in
    record {
      accepted = λ k. inr (record {
        hierarchy = g;
        from_pairs = from_pairs;
        entry = find_entry-with s t t x ∙ rw (text_eq_refl t) (ap some (sym made));
        newer = fresh-lt s t revision ea eb;
      });
      reached = λ k.
          get_tenant_revision-with s t t x
          ∙ rw (text_eq_refl t) (revision-built t ps pairs revision x q);
      stale = λ k. cc;
      refused = λ d k. cc;
      others = λ j n. find_entry-with s t j x ∙ rw (text_eq_of_ne t j n);
    }

-- An update that carries a revision has one of four outcomes. The tenant is at this revision, which
-- is positive, and the state is unchanged; or the tenant's trie is then the one that the given
-- policies and pairs make, at this revision, which is 0 or above the tenant's; or the update is
-- reported as stale, as the revision is positive and below the tenant's, and the state is unchanged;
-- or AddInheritance refuses the given pairs, and the state is unchanged. Other tenants keep their
-- tries.
pub update_with_revision-IsRevised :
    (s : Tenants) (t : Text) (ps : List PolicyNode) (pairs : List (Text × Text)) (revision : ℕ)
    → IsRevised s t ps pairs revision (update_tenant_policies_with_revision s t ps pairs revision)
unfolding update_tenant_policies_with_revision
update_with_revision-IsRevised s t ps pairs revision =
    go (build_tenant_trie t ps pairs revision) refl
  where
    go :
        (b : Build)
        → build_tenant_trie t ps pairs revision ≡ b
        → IsRevised s t ps pairs revision (elim b [
          | failed e ↦ (s, some (build_error e))
          | built x ↦
              if revision_is_stale s t revision
              then (s, some stale_revision)
              else if revision_is_duplicate s t revision
              then (s, none)
              else (state_with_tenant s t x, none)
        ])
    go (failed d) e = record {
      accepted = λ k. cc;
      reached = λ k. cc;
      stale = λ k. cc;
      refused = λ c k.
          let same : d ≡ c = cc in
          (refl, build_tenant_trie-failed t ps pairs revision d e ∙ ap rejected same);
      others = λ j n. refl;
    }
    go (built x) e =
        by_tests s t ps pairs revision x (revision_is_stale s t revision)
          (revision_is_duplicate s t revision) refl refl e

entry-revision :
    (s u : Tenants) (j : Text)
    → find_entry u j ≡ find_entry s j
    → get_tenant_revision u j ≡ get_tenant_revision s j
unfolding get_tenant_revision
entry-revision s u j h = rw (get_tenant_revision, h) refl

-- A history of updates that carry positive revisions, from any number of writers: each writer's
-- critical section is one step.
pub data History : Tenants → Tenants → Type 0 where
  start : {s : Tenants} → History s s
  publish :
      {s u : Tenants} (t : Text) (ps : List PolicyNode) (pairs : List (Text × Text)) (revision : ℕ)
      → 0 < revision
      → History s u
      → History s (update_tenant_policies_with_revision u t ps pairs revision).0

accepted-le :
    (s : Tenants) (t : Text) (ps : List PolicyNode) (pairs : List (Text × Text)) (revision : ℕ)
    (u : Tenants)
    → 0 < revision
    → IsDuplicate s t revision u ⊎ IsRebuilt s t ps pairs revision u
    → get_tenant_revision s t ≤ revision
accepted-le s t ps pairs revision u h (inl d) = le_of_eq d.current
accepted-le s t ps pairs revision u h (inr r) = omega (arith, r.newer h)

pub step-le :
    (s : Tenants) (t : Text) (ps : List PolicyNode) (pairs : List (Text × Text)) (revision : ℕ)
    (u : Updated) (j : Text)
    → 0 < revision
    → IsRevised s t ps pairs revision u
    → get_tenant_revision s j ≤ get_tenant_revision u.0 j
step-le s t ps pairs revision u j h v = elim (Bool-cases (text_eq t j)) [
  | inl e ↦ rw (← (text_eq_iff t j).0 e) (by_error u.1 refl)
  | inr e ↦ le_of_eq (sym (entry-revision s u.0 j (v.others j (text_eq_ne t j e))))
]
  where
    by_error :
        (o : Option UpdateError) → u.1 ≡ o → get_tenant_revision s t ≤ get_tenant_revision u.0 t
    by_error none e =
        omega (arith, v.reached e, accepted-le s t ps pairs revision u.0 h (v.accepted e))
    by_error (some stale_revision) e = rw (v.stale e).0 (omega arith)
    by_error (some (build_error d)) e = rw (v.refused d e).0 (omega arith)

-- Over any history of updates with positive revisions no tenant's revision ever falls.
pub revision_monotone :
    {s u : Tenants} (j : Text) → History s u → get_tenant_revision s j ≤ get_tenant_revision u j
revision_monotone j start = omega arith
revision_monotone j (publish {u} t ps pairs revision h past) = omega (
  arith,
  revision_monotone j past,
  step-le u t ps pairs revision (update_tenant_policies_with_revision u t ps pairs revision) j h
      (update_with_revision-IsRevised u t ps pairs revision),
)
