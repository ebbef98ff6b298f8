-- ===== src/Engine/Updates.antt =====
-- Copy-on-write updates: what they change, and what they leave alone.
use standalone_policy_engine.Base.{
  ℕ, ◌≡◌, ◌≢◌, refl, sym, ap, ◌∙◌, Bool, true, false, none, some, List, [], ◌∷◌, ◌++◌,
  if◌then◌else◌, arith,
}
use standalone_policy_engine.Base.Text.{Text, text_eq, text_eq_iff, text_eq_of_ne, text_eq_refl}
use standalone_policy_engine.Ast.{PolicyNode}
use standalone_policy_engine.Dag.{
  RoleDag, DagError, new_role_dag, AddResult, added, rejected, add_inheritance, find_entry,
}
use standalone_policy_engine.Dag.Add.{IsValid, new_role_dag-IsValid, added-IsValid}
use standalone_policy_engine.Trie.{TrieRoot, new_trie_root, add_policy, is_global}
use standalone_policy_engine.Trie.Keys.{index}
use standalone_policy_engine.Engine.{
  Tenants, add_all, Build, built, failed, build_tenant_trie, state_without_tenant,
  state_with_tenant, revision_is_stale, revision_is_duplicate, build_error, stale_revision, Updated,
  get_tenant_revision, next_revision, update_tenant_policies, update_tenant_policies_with_revision,
}

pub find_entry-without :
    (s : Tenants) (t j : Text)
    → find_entry (state_without_tenant s t) j ≡ (if text_eq t j then none else find_entry s j)
unfolding find_entry state_without_tenant
find_entry-without [] t j = ground arith
find_entry-without ((k, x) ∷ s) t j =
    ground (arith, find_entry-without s t j, text_eq_iff k t, text_eq_iff t j, text_eq_iff k j)

find_entry-append :
    (s : Tenants) (t j : Text) (x : TrieRoot)
    → find_entry s t ≡ none
    → find_entry (s ++ (t, x) ∷ []) j ≡ (if text_eq t j then some x else find_entry s j)
unfolding find_entry
find_entry-append [] t j x h = refl
find_entry-append ((k, y) ∷ s) t j x h =
    ground (arith, find_entry-append s t j x, text_eq_iff k t, text_eq_iff t j, text_eq_iff k j)

pub find_entry-with :
    (s : Tenants) (t j : Text) (x : TrieRoot)
    → find_entry (state_with_tenant s t x) j ≡ (if text_eq t j then some x else find_entry s j)
unfolding state_with_tenant
find_entry-with s t j x = ground (
  arith,
  find_entry-append (state_without_tenant s t) t j x,
  find_entry-without s t t,
  find_entry-without s t j,
  text_eq_refl t,
)

-- An update of one tenant leaves every other tenant's trie as it was, on every path.
pub update_isolated :
    (s : Tenants) (t j : Text) (ps : List PolicyNode) (pairs : List (Text × Text)) (revision : ℕ)
    → t ≢ j
    → (find_entry (update_tenant_policies s t ps pairs).0 j ≡ find_entry s j)
      × (find_entry (update_tenant_policies_with_revision s t ps pairs revision).0 j
          ≡ find_entry s j)
unfolding update_tenant_policies update_tenant_policies_with_revision
update_isolated s t j ps pairs revision n = (
  by_build (build_tenant_trie t ps pairs 0),
  by_build_with (build_tenant_trie t ps pairs revision),
)
  where
    others : (x : TrieRoot) → find_entry (state_with_tenant s t x) j ≡ find_entry s j
    others x = find_entry-with s t j x ∙ rw (text_eq_of_ne t j n)

    by_build :
        (b : Build)
        → find_entry
            (elim b as (λ k. Updated) [
              | failed e ↦ (s, some (build_error e))
              | built x ↦ (state_with_tenant s t (record x { revision = next_revision s t }), none)
            ]).0
            j
          ≡ find_entry s j
    by_build (failed e) = refl
    by_build (built x) = others (record x { revision = next_revision s t })

    by_build_with :
        (b : Build)
        → find_entry
            (elim b as (λ k. Updated) [
              | failed e ↦ (s, some (build_error e))
              | built x ↦
                  if revision_is_stale s t revision
                  then (s, some stale_revision)
                  else if revision_is_duplicate s t revision
                  then (s, none)
                  else (state_with_tenant s t x, none)
            ]).0
            j
          ≡ find_entry s j
    by_build_with (failed e) = refl
    by_build_with (built x) = ground (arith, others x)

revision-foldl : (base : TrieRoot) (ps : List PolicyNode) → (index base ps).revision ≡ base.revision
revision-foldl base [] = refl
revision-foldl base (p ∷ ps) = revision-foldl (add_policy base p) ps ∙ one (is_global p) refl
  where
    one : (b : Bool) → is_global p ≡ b → (add_policy base p).revision ≡ base.revision
    one true e = unfold add_policy in rw e
    one false e = unfold add_policy in rw e

-- The trie that a build starts from.
abbrev pub base_trie : Text → ℕ → RoleDag → TrieRoot
base_trie t revision g = record (new_trie_root t) { revision = revision; role_dag = g }

add_all-IsValid :
    (pairs : List (Text × Text)) (g h : RoleDag) → IsValid g → add_all g pairs ≡ added h → IsValid h
unfolding add_all
add_all-IsValid [] g h v e = let q : g ≡ h = cc in rw (← q) v
add_all-IsValid ((p, c) ∷ pairs) g h v e =
    go (add_inheritance g p c) refl (λ k w r. add_all-IsValid pairs k h w r)
  where
    go :
        (r : AddResult)
        → add_inheritance g p c ≡ r
        → ((k : RoleDag) → IsValid k → add_all k pairs ≡ added h → IsValid h)
        → IsValid h
    go (rejected d) q ih = absurd (let k = rw (q, add_all) at e in cc)
    go (added k) q ih = ih k (added-IsValid g p c k q) (rw (q, add_all) at e)

-- A built trie holds the given policies, at the given revision, over the hierarchy of the given
-- pairs, which has no cycles.
pub build_tenant_trie-built :
    (tenant : Text) (ps : List PolicyNode) (pairs : List (Text × Text)) (revision : ℕ)
    (t : TrieRoot)
    → build_tenant_trie tenant ps pairs revision ≡ built t
    → (g : RoleDag) × (add_all new_role_dag pairs ≡ added g)
      × IsValid g
      × (index (base_trie tenant revision g) ps ≡ t)
unfolding build_tenant_trie new_trie_root
build_tenant_trie-built tenant ps pairs revision t e = go (add_all new_role_dag pairs) refl
  where
    go :
        (r : AddResult)
        → add_all new_role_dag pairs ≡ r
        → (g : RoleDag) × (add_all new_role_dag pairs ≡ added g)
          × IsValid g
          × (index (base_trie tenant revision g) ps ≡ t)
    go (rejected d) q = absurd (let k = rw (q, build_tenant_trie) at e in cc)
    go (added g) q =
        let k = rw (q, build_tenant_trie) at e in
        (g, q, add_all-IsValid pairs new_role_dag g new_role_dag-IsValid q, cc)

pub build_tenant_trie-failed :
    (tenant : Text) (ps : List PolicyNode) (pairs : List (Text × Text)) (revision : ℕ)
    (d : DagError)
    → build_tenant_trie tenant ps pairs revision ≡ failed d
    → add_all new_role_dag pairs ≡ rejected d
unfolding build_tenant_trie new_trie_root
build_tenant_trie-failed tenant ps pairs revision d e = go (add_all new_role_dag pairs) refl
  where
    go : (r : AddResult) → add_all new_role_dag pairs ≡ r → r ≡ rejected d
    go (added g) q = absurd (let k = rw (q, build_tenant_trie) at e in cc)
    go (rejected x) q = let k = rw (q, build_tenant_trie) at e in cc

pub revision-built :
    (tenant : Text) (ps : List PolicyNode) (pairs : List (Text × Text)) (revision : ℕ)
    (t : TrieRoot)
    → build_tenant_trie tenant ps pairs revision ≡ built t
    → t.revision ≡ revision
revision-built tenant ps pairs revision t e =
    let (g, from_pairs, v, q) = build_tenant_trie-built tenant ps pairs revision t e in
    ap (λ (k : TrieRoot). k.revision) (sym q) ∙ revision-foldl (base_trie tenant revision g) ps

pub get_tenant_revision-with :
    (s : Tenants) (t j : Text) (x : TrieRoot)
    → get_tenant_revision (state_with_tenant s t x) j
      ≡ (if text_eq t j then x.revision else get_tenant_revision s j)
unfolding get_tenant_revision
get_tenant_revision-with s t j x = ground (arith, find_entry-with s t j x)
