-- ===== src/Engine/Access.antt =====
-- From an update to the decisions over it.
use standalone_policy_engine.Base.{
  ℕ, ◌≡◌, refl, sym, ap, ◌∙◌, ◌↔◌, false, none, some, List, [], ◌∷◌,
}
use standalone_policy_engine.Base.Text.{Text, text_eq_refl}
use standalone_policy_engine.Ast.{PolicyNode, permit, forbid}
use standalone_policy_engine.Platform.{Platform}
use standalone_policy_engine.Dag.{
  Adjacency, AddResult, rejected, add_edge, add_inheritance, RoleDag, added, new_role_dag,
  find_entry,
}
use standalone_policy_engine.Dag.Add.{IsValid, added-adj}
use standalone_policy_engine.Trie.{TrieRoot, lookup_policies, subject_policies}
use standalone_policy_engine.Trie.Keys.{IsEmpty, index, new_trie_root-IsEmpty}
use standalone_policy_engine.Decision.{allow, Request, matched_policies, evaluate_permission}
use standalone_policy_engine.Decision.Verdict.{NoCollision, HasEffective, allow_iff}
use standalone_policy_engine.Engine.{
  Tenants, add_all, Build, built, failed, build_tenant_trie, Updated, state_with_tenant,
  next_revision, update_tenant_policies, engine_check_permission,
}
use standalone_policy_engine.Engine.Updates.{find_entry-with, base_trie, build_tenant_trie-built}

-- The revision takes no part in a decision.
evaluate_permission-revision :
    (lib : Platform) (t : TrieRoot) (n : ℕ) (r : Request)
    → evaluate_permission lib (record t { revision = n }) r ≡ evaluate_permission lib t r
unfolding evaluate_permission matched_policies lookup_policies subject_policies
evaluate_permission-revision lib t n r = refl

base_trie-IsEmpty : (t : Text) (n : ℕ) (g : RoleDag) → IsEmpty (base_trie t n g)
base_trie-IsEmpty t n g =
    let v = new_trie_root-IsEmpty t in
    record { no_subjects = v.no_subjects; no_globals = v.no_globals }

find_entry-updated :
    (s u : Tenants) (t : Text) (ps : List PolicyNode) (pairs : List (Text × Text))
    → update_tenant_policies s t ps pairs ≡ (u, none)
    → (g : RoleDag) × (add_all new_role_dag pairs ≡ added g)
      × IsValid g
      × (find_entry u t
          ≡ some (record (index (base_trie t 0 g) ps) { revision = next_revision s t }))
unfolding update_tenant_policies
find_entry-updated s u t ps pairs e = go (build_tenant_trie t ps pairs 0) refl
  where
    go :
        (b : Build)
        → build_tenant_trie t ps pairs 0 ≡ b
        → (g : RoleDag) × (add_all new_role_dag pairs ≡ added g)
          × IsValid g
          × (find_entry u t
              ≡ some (record (index (base_trie t 0 g) ps) { revision = next_revision s t }))
    go (failed d) q = absurd (let k = rw (q, update_tenant_policies) at e in cc)
    go (built x) q =
        let k = rw (q, update_tenant_policies) at e in
        let (g, from_pairs, v, f) = build_tenant_trie-built t ps pairs 0 x q in
        let w : state_with_tenant s t (record x { revision = next_revision s t }) ≡ u =
          ap (λ (z : Updated). z.0) k in
        (
          g,
          from_pairs,
          v,
          rw (← w) (
              find_entry-with s t t (record x { revision = next_revision s t })
              ∙ rw (text_eq_refl t) (
                  ap (λ (z : TrieRoot). some (record z { revision = next_revision s t })) (sym f))),
        )

-- The edges from parents to children, in the order of the pairs.
abbrev pub edges_of : Adjacency → List (Text × Text) → Adjacency
edges_of adj [] = adj
edges_of adj ((p, c) ∷ pairs) = edges_of (add_edge p c adj) pairs

add_all-adj :
    (pairs : List (Text × Text)) (g h : RoleDag)
    → add_all g pairs ≡ added h
    → h.adj ≡ edges_of g.adj pairs
unfolding add_all
add_all-adj [] g h e = let q : g ≡ h = cc in ap (λ z. z.adj) (sym q)
add_all-adj ((p, c) ∷ pairs) g h e =
    go (add_inheritance g p c) refl (λ k r. add_all-adj pairs k h r)
  where
    go :
        (r : AddResult)
        → add_inheritance g p c ≡ r
        → ((k : RoleDag) → add_all k pairs ≡ added h → h.adj ≡ edges_of k.adj pairs)
        → h.adj ≡ edges_of (add_edge p c g.adj) pairs
    go (rejected d) q ih = absurd (let k = rw (q, add_all) at e in cc)
    go (added k) q ih =
        ih k (rw (q, add_all) at e) ∙ ap (λ z. edges_of z pairs) (added-adj g p c k q)

-- Once UpdateTenantPolicies has returned no error, a request of that tenant that is not canceled is
-- allowed exactly when an effective permit and no effective forbid stand among the policies that
-- were given, over the role hierarchy that AddInheritance makes of the given pairs in their order,
-- starting from the empty one; it has exactly these edges and no cycles. It holds where the hash of the action does not
-- collide with that of the wildcard.
pub published_decides :
    (lib : Platform) (s u : Tenants) (t : Text) (ps : List PolicyNode) (pairs : List (Text × Text))
    (r : Request)
    → update_tenant_policies s t ps pairs ≡ (u, none)
    → NoCollision r
    → (g : RoleDag) × (add_all new_role_dag pairs ≡ added g)
      × IsValid g
      × (g.adj ≡ edges_of [] pairs)
      × ((engine_check_permission lib false u t r).decision ≡ allow ↔ (
          HasEffective lib (base_trie t 0 g) ps r permit
          × (¬ HasEffective lib (base_trie t 0 g) ps r forbid)))
unfolding engine_check_permission new_role_dag
published_decides lib s u t ps pairs r e h =
    let (g, from_pairs, v, f) = find_entry-updated s u t ps pairs e in
    (
      g,
      from_pairs,
      v,
      add_all-adj pairs new_role_dag g from_pairs,
      rw (f, engine_check_permission)
          (rw (evaluate_permission-revision lib (index (base_trie t 0 g) ps) (next_revision s t) r)
            (allow_iff lib (base_trie t 0 g) ps r (base_trie-IsEmpty t 0 g) h)),
    )
