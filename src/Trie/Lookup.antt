-- ===== src/Trie/Lookup.antt =====
-- LookupPoliciesInto over a trie that a run of AddPolicy built.
use standalone_policy_engine.Base.{
  arith, true, ◌≡◌, refl, ap, ◌∙◌, inl, inr, ◌↔◌, false, List, ◌++◌, keep_if, flat_map, In,
  In-append_left, In-append_right, In-append_cases, In-keep_if, keep_if-In, In-flat_map,
  flat_map-In, Bool-cases,
}
use standalone_policy_engine.Base.Text.{Text}
use standalone_policy_engine.Ast.{PolicyNode}
use standalone_policy_engine.Trie.{
  TrieRoot, fnv_hash, any, build_key, is_any, is_global, ensure_any, subject_policies,
  lookup_policies,
}
use standalone_policy_engine.Trie.Leaves.{leaf, is_stored_at, global-foldl}
use standalone_policy_engine.Trie.Keys.{
  In-ensure_any, action_keys, subject_policies-leaf, IsEmpty, index, leaf-index, IsReached,
  In-action_keys, is_stored_at_iff,
}

-- A policy found under a subject's key was added, is not global, and has the keys that led to it.
found_under :
    (base : TrieRoot) (ps : List PolicyNode) (resources : List Text) (action sub : Text)
    (p : PolicyNode)
    → IsEmpty base
    → In p (subject_policies (index base ps) resources action sub)
    → In p ps
      × (is_global p ≡ false)
      × (build_key p.principal ≡ sub)
      × In (build_key p.resource) resources
      × In (build_key p.action) (action_keys action)
found_under base ps resources action sub p v m =
    let t = index base ps in
    let (r, ir, mr) =
      flat_map-In (λ r. flat_map (λ a. leaf t.subjects sub r a) (action_keys action)) p resources
        (rw (subject_policies-leaf t resources action sub) at m) in
    let (a, ia, ma) = flat_map-In (λ a. leaf t.subjects sub r a) p (action_keys action) mr in
    let (mp, kept) =
      keep_if-In (is_stored_at sub r a) p ps (rw (leaf-index base ps sub r a v) at ma) in
    let (g, es, er, ea) = (is_stored_at_iff sub r a p).0 kept in (mp, g, es, rw er ir, rw ea ia)

stored_found :
    (base : TrieRoot) (ps : List PolicyNode) (resources : List Text) (action : Text)
    (p : PolicyNode)
    → IsEmpty base
    → In p ps
    → is_global p ≡ false
    → In (build_key p.resource) resources
    → In (build_key p.action) (action_keys action)
    → In p (subject_policies (index base ps) resources action (build_key p.principal))
stored_found base ps resources action p v m g ir ia =
    let s = build_key p.principal in
    let r = build_key p.resource in
    let a = build_key p.action in
    let t = index base ps in
    rw (subject_policies-leaf t resources action s) (
      In-flat_map (λ r. flat_map (λ a. leaf t.subjects s r a) (action_keys action)) p r resources ir
        (In-flat_map (λ a. leaf t.subjects s r a) p a (action_keys action) ia
          (rw (leaf-index base ps s r a v) (
            In-keep_if (is_stored_at s r a) p ps m
              ((is_stored_at_iff s r a p).1 (g, refl, refl, refl))))))

pub global-index :
    (base : TrieRoot) (ps : List PolicyNode)
    → IsEmpty base
    → (index base ps).global_policies ≡ keep_if is_global ps
global-index base ps v = global-foldl ps base ∙ ap (λ l. l ++ keep_if is_global ps) v.no_globals

is_global_iff :
    (p : PolicyNode)
    → (is_global p ≡ true) ↔ ((is_any p.principal ≡ true) × (is_any p.resource ≡ true))
unfolding is_global
is_global_iff p = (λ h. (ground arith, ground arith), λ (a, b). rw (is_global, a, b) refl)

-- LookupPoliciesInto over a trie that held no policy before a list of policies was added returns
-- exactly the policies of the list that the keys of the request reach, provided the hash of the action does not collide with that
-- of the wildcard. Collisions among all other keys do no harm.
pub In-lookup_policies :
    (base : TrieRoot) (ps : List PolicyNode) (subjects resources : List Text) (action : Text)
    (p : PolicyNode)
    → IsEmpty base
    → (fnv_hash action ≡ fnv_hash any → action ≡ any)
    → In p (lookup_policies (index base ps) subjects resources action)
      ↔ (In p ps × IsReached subjects resources action p)
unfolding lookup_policies
In-lookup_policies base ps subjects resources action p v h = (
  λ m. elim (In-append_cases p t.global_policies _ m) [
    | inl g ↦
        let (mp, e) = keep_if-In is_global p ps (rw (global-index base ps v) at g) in
        (mp, inl ((is_global_iff p).0 e))
    | inr k ↦
        let (s, i, mk) =
          flat_map-In (subject_policies t (ensure_any resources) action) p (ensure_any subjects)
            k in
        let (mp, g, es, ir, ia) = found_under base ps (ensure_any resources) action s p v mk in
        (
          mp,
          inr (
            (In-ensure_any (build_key p.principal) subjects).0 (rw es i),
            (In-ensure_any (build_key p.resource) resources).0 ir,
            (In-action_keys (build_key p.action) action h).0 ia,
          ),
        )
  ],
  λ (mp, reached). elim (Bool-cases (is_global p)) [
    | inl g ↦
        In-append_left p t.global_policies _
          (rw (global-index base ps v) (In-keep_if is_global p ps mp g))
    | inr g ↦ elim reached [
      | inl e ↦ let w = (is_global_iff p).1 e in absurd (cc)
      | inr (ks, kr, ka) ↦ In-append_right p t.global_policies _ (
          In-flat_map (subject_policies t (ensure_any resources) action) p (build_key p.principal)
            (ensure_any subjects) ((In-ensure_any (build_key p.principal) subjects).1 ks)
            (stored_found base ps (ensure_any resources) action p v mp g
              ((In-ensure_any (build_key p.resource) resources).1 kr)
              ((In-action_keys (build_key p.action) action h).1 ka)))
    ]
  ],
)
  where
    t : TrieRoot
    t = index base ps
