-- ===== src/Trie/Keys.antt =====
-- The keys that a lookup tries, and the leaves that they lead to.
use standalone_policy_engine.Base.{
  ◌≡◌, refl, sym, ap, ap₂, ◌∙◌, ◌⊎◌, inl, inr, ◌↔◌, Bool, true, false, Option, none, some, List, [],
  ◌∷◌, ◌++◌, ℕ, zero, suc, foldl, keep_if, flat_map, In, In-append_left, In-append_right,
  In-append_cases, Bool-cases, if◌then◌else◌, ◌==◌, append-nil, fun_ext, length, take, ltb, ==_iff,
  arith,
}
use standalone_policy_engine.Base.Text.{Text, text_eq_iff}
use standalone_policy_engine.Ast.{PolicyNode}
use standalone_policy_engine.Dag.{member}
use standalone_policy_engine.Dag.Lookup.{member_iff}
use standalone_policy_engine.Trie.{
  ResourceNode, SubjectNode, TrieRoot, new_trie_root, fnv_hash, any, build_key, is_any, is_global,
  find_node, find_subject_node, find_resource_node, add_policy, ensure_any, action_policies,
  try_actions, resource_policies, subject_policies,
}
use standalone_policy_engine.Trie.Leaves.{
  resource_leaf, subject_leaf, leaf, is_stored_at, leaf-foldl,
}

take_all : {A : Type 0} (n : ℕ) (xs : List A) → ltb (length (take n xs)) n ≡ true → take n xs ≡ xs
take_all zero [] h = refl
take_all zero (x ∷ xs) h = cc
take_all (suc n) [] h = refl
take_all (suc n) (x ∷ xs) h = ap (λ l. x ∷ l) (take_all n xs (ground arith))

ensure_any-eq :
    (list : List Text) → ensure_any list ≡ (if member any list then list else list ++ any ∷ [])
unfolding ensure_any
ensure_any-eq list = ground (arith, take_all 32 list)

-- The keys tried are those given and the wildcard.
pub In-ensure_any : (k : Text) (list : List Text) → In k (ensure_any list) ↔ (In k list ⊎ (k ≡ any))
In-ensure_any k list = elim (Bool-cases (member any list)) [
  | inl e ↦
      rw (ensure_any-eq list, e)
        (inl, elim [ inl m ↦ m | inr q ↦ rw q ((member_iff any list).0 e) ])
  | inr e ↦
      rw (ensure_any-eq list, e)
        (
          λ m. elim (In-append_cases k list (any ∷ []) m) [
            | inl old ↦ inl old
            | inr new ↦ elim new [ inl q ↦ inr q | inr none_left ↦ absurd none_left ]
          ],
          elim [
            | inl m ↦ In-append_left k list (any ∷ []) m
            | inr q ↦ In-append_right k list (any ∷ []) (inl q)
          ],
        )
]

-- The action keys tried on a resource's node, in order.
abbrev pub action_keys : Text → List Text
action_keys action = if fnv_hash action == fnv_hash any then action ∷ [] else action ∷ any ∷ []

resource_policies-leaf :
    (action res : Text) (s : SubjectNode)
    → resource_policies action s res
      ≡ flat_map (λ a. subject_leaf res a (some s)) (action_keys action)
unfolding resource_policies try_actions subject_leaf resource_leaf
resource_policies-leaf action res s =
    go (find_resource_node (s.resources (fnv_hash res)) res) (fnv_hash action == fnv_hash any)
  where
    go :
        (o : Option ResourceNode) (b : Bool)
        → (elim o [
          | none ↦ []
          | some n ↦
              action_policies n (fnv_hash action) action
              ++ (if b then [] else action_policies n (fnv_hash any) any)
        ])
          ≡ flat_map (λ a. resource_leaf a o) (if b then action ∷ [] else action ∷ any ∷ [])
    go none true = refl
    go none false = refl
    go (some n) true = refl
    go (some n) false =
        ap (λ l. action_policies n (fnv_hash action) action ++ l) (sym (append-nil _))

no_leaves :
    (keys resources : List Text)
    → flat_map (λ r. flat_map (λ a. subject_leaf r a none) keys) resources ≡ []
unfolding subject_leaf
no_leaves keys [] = refl
no_leaves keys (r ∷ resources) = ap₂ (λ k l. k ++ l) (no_keys keys) (no_leaves keys resources)
  where
    no_keys : (keys : List Text) → flat_map (λ (a : Text). subject_leaf r a none) keys ≡ []
    no_keys [] = refl
    no_keys (k ∷ ks) = no_keys ks

pub subject_policies-leaf :
    (t : TrieRoot) (resources : List Text) (action sub : Text)
    → subject_policies t resources action sub
      ≡ flat_map (λ r. flat_map (λ a. leaf t.subjects sub r a) (action_keys action)) resources
unfolding subject_policies leaf
subject_policies-leaf t resources action sub =
    go (find_subject_node (t.subjects (fnv_hash sub)) sub)
  where
    go :
        (o : Option SubjectNode)
        → (elim o [ none ↦ [] | some s ↦ flat_map (resource_policies action s) resources ])
          ≡ flat_map (λ r. flat_map (λ a. subject_leaf r a o) (action_keys action)) resources
    go none = sym (no_leaves (action_keys action) resources)
    go (some s) = ap (λ f. flat_map f resources) (fun_ext (λ r. resource_policies-leaf action r s))

-- A trie that holds no policy.
pub record IsEmpty (t : TrieRoot) : Type 0 where
  pub no_subjects : t.subjects ≡ (λ h. [])
  pub no_globals : t.global_policies ≡ []

pub new_trie_root-IsEmpty : (tenant : Text) → IsEmpty (new_trie_root tenant)
unfolding new_trie_root
new_trie_root-IsEmpty tenant = record { no_subjects = refl; no_globals = refl }

-- The trie after a run of additions.
abbrev pub index : TrieRoot → List PolicyNode → TrieRoot
index base ps = foldl add_policy base ps

pub leaf-index :
    (base : TrieRoot) (ps : List PolicyNode) (s r a : Text)
    → IsEmpty base
    → leaf (index base ps).subjects s r a ≡ keep_if (is_stored_at s r a) ps
leaf-index base ps s r a v =
    leaf-foldl ps base s r a ∙ ap (λ l. l ++ keep_if (is_stored_at s r a) ps) empty
  where
    empty : leaf base.subjects s r a ≡ []
    empty = rw v.no_subjects (unfold leaf find_subject_node find_node subject_leaf in refl)

-- A request's keys reach the policy: it is global, or each of its three keys is asked for or is
-- the wildcard.
abbrev pub IsReached : List Text → List Text → Text → PolicyNode → Type 0
IsReached subjects resources action p =
    ((is_any p.principal ≡ true) × (is_any p.resource ≡ true))
    ⊎ ((In (build_key p.principal) subjects ⊎ (build_key p.principal ≡ any))
        × (In (build_key p.resource) resources ⊎ (build_key p.resource ≡ any))
        × ((build_key p.action ≡ action) ⊎ (build_key p.action ≡ any)))

pub In-action_keys :
    (a action : Text)
    → (fnv_hash action ≡ fnv_hash any → action ≡ any)
    → In a (action_keys action) ↔ ((a ≡ action) ⊎ (a ≡ any))
In-action_keys a action h = elim (Bool-cases (fnv_hash action == fnv_hash any)) [
  | inl e ↦
      let q = h ((==_iff _ _).0 e) in
      rw e (
        elim [ inl i ↦ inl i | inr n ↦ absurd n ],
        elim [ inl i ↦ inl i | inr i ↦ inl (i ∙ sym q) ],
      )
  | inr e ↦ rw e (
    elim [ inl i ↦ inl i | inr n ↦ elim n [ inl i ↦ inr i | inr m ↦ absurd m ] ],
    elim [ inl i ↦ inl i | inr i ↦ inr (inl i) ],
  )
]

pub is_stored_at_iff :
    (s r a : Text) (p : PolicyNode)
    → (is_stored_at s r a p ≡ true) ↔ (
        (is_global p ≡ false)
        × (build_key p.principal ≡ s)
        × (build_key p.resource ≡ r)
        × (build_key p.action ≡ a))
unfolding is_stored_at
is_stored_at_iff s r a p = ground (
  arith,
  text_eq_iff (build_key p.principal) s,
  text_eq_iff (build_key p.resource) r,
  text_eq_iff (build_key p.action) a,
)
