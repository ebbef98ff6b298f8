-- ===== src/Trie.antt =====
-- The policy index of internal/engine/trie.go: subject, then resource, then action, each level a Go
-- map from FNV-1a hashes to the nodes in that bucket. A map from hashes is a function, with the
-- empty bucket where the map has no entry. The trie is built before it is published, so its nodes
-- are values; the pooled result buffer is the list that is returned.
pub mod Leaves
pub mod Keys
pub mod Lookup
use Prim.Native.Nat.{bit_xor}
use standalone_policy_engine.Base.{
  ℕ, zero, suc, ◌+◌, ◌*◌, ◌%◌, ◌^◌, Bool, true, false, ◌&&◌, Option, none, some, List, [], ◌∷◌,
  ◌++◌, length, take, flat_map, if◌then◌else◌, ltb, ◌==◌,
}
use standalone_policy_engine.Base.Text.{Text, txt, text_eq}
use standalone_policy_engine.Ast.{PolicyNode, ScopeNode, ScopeOp, scope_eq, scope_in, scope_any}
use standalone_policy_engine.Dag.{RoleDag, new_role_dag, member}

-- map[uint64][]A
abbrev pub Buckets : Type 0 → Type 0
Buckets A = ℕ → List A

pub record ActionNode : Type 0 where
  pub key : Text
  pub policies : List PolicyNode

pub record ResourceNode : Type 0 where
  pub key : Text
  pub actions : Buckets ActionNode

pub record SubjectNode : Type 0 where
  pub key : Text
  pub resources : Buckets ResourceNode

pub record TrieRoot : Type 0 where
  pub tenant_id : Text
  pub revision : ℕ
  pub required_attributes : List Text
  pub subjects : Buckets SubjectNode
  pub global_policies : List PolicyNode
  pub role_dag : RoleDag

unfoldable pub new_trie_root : Text → TrieRoot
new_trie_root tenant = record {
  tenant_id = tenant;
  revision = 1;
  required_attributes = [];
  subjects = λ h. [];
  global_policies = [];
  role_dag = new_role_dag;
}

unfoldable pub fnv_loop : ℕ → Text → ℕ
fnv_loop hash [] = hash
fnv_loop hash (c ∷ s) = fnv_loop (bit_xor hash c * 1099511628211 % 2 ^ 64) s

unfoldable pub fnv_hash : Text → ℕ
fnv_hash s = fnv_loop 14695981039346656037 s

-- scope == nil || scope.Operator == ScopeOpAny
unfoldable pub is_any : Option ScopeNode → Bool
is_any none = true
is_any (some s) = elim s.operator [ scope_any ↦ true | scope_eq ↦ false | scope_in ↦ false ]

abbrev pub any : Text
any = txt "any"

unfoldable pub build_key : Option ScopeNode → Text
unfolding is_any
build_key none = any
build_key (some s) = if is_any (some s) then any else s.entity_type ++ (txt ":" ++ s.entity_id)

unfoldable pub build_key_hash : Option ScopeNode → ℕ
build_key_hash scope = fnv_hash (build_key scope)

-- The three functions findSubjectNode, findResourceNode and findActionNode differ in the node type.
module _ {A : Type 0} (key_of : A → Text) where
  unfoldable pub find_node : List A → Text → Option A
  find_node [] key = none
  find_node (n ∷ ns) key =
      let rest = find_node ns key in if text_eq (key_of n) key then some n else rest

  -- The node that find_node finds is changed in place; where there is none, `fresh` is appended to
  -- the bucket and changed.
  unfoldable pub find_or_create : Text → A → (A → A) → List A → List A
  find_or_create key fresh change [] = change fresh ∷ []
  find_or_create key fresh change (n ∷ ns) =
      let rest = find_or_create key fresh change ns in
      if text_eq (key_of n) key then change n ∷ ns else n ∷ rest

unfoldable pub find_subject_node : List SubjectNode → Text → Option SubjectNode
find_subject_node = find_node (λ n. n.key)

unfoldable pub find_resource_node : List ResourceNode → Text → Option ResourceNode
find_resource_node = find_node (λ n. n.key)

unfoldable pub find_action_node : List ActionNode → Text → Option ActionNode
find_action_node = find_node (λ n. n.key)

-- m[h] = change (m[h])
unfoldable pub at_hash : {A : Type 0} → ℕ → (List A → List A) → Buckets A → Buckets A
at_hash h change m k = if h == k then change (m k) else m k

unfoldable pub append_policy : PolicyNode → ActionNode → ActionNode
append_policy p n = record n { policies = n.policies ++ p ∷ [] }

unfoldable pub add_to_resource : Text → PolicyNode → ResourceNode → ResourceNode
add_to_resource act p n = record n {
  actions =
      at_hash (fnv_hash act)
        (find_or_create (λ a. a.key) act (record { key = act; policies = [] }) (append_policy p))
        n.actions;
}

unfoldable pub add_to_subject : Text → Text → PolicyNode → SubjectNode → SubjectNode
add_to_subject res act p n = record n {
  resources =
      at_hash (fnv_hash res)
        (find_or_create (λ r. r.key) res (record { key = res; actions = λ h. [] })
          (add_to_resource act p))
        n.resources;
}

unfoldable pub add_to_subjects :
    Text → Text → Text → PolicyNode → Buckets SubjectNode → Buckets SubjectNode
add_to_subjects sub res act p = at_hash (fnv_hash sub) (
    find_or_create (λ s. s.key) sub (record { key = sub; resources = λ h. [] })
      (add_to_subject res act p))

-- The loop that collects the attributes that the tenant's policies need, each once.
unfoldable pub merge_attributes : List Text → List Text → List Text
merge_attributes known [] = known
merge_attributes known (a ∷ attrs) =
    merge_attributes (if member a known then known else known ++ a ∷ []) attrs

unfoldable pub is_global : PolicyNode → Bool
is_global p = is_any p.principal && is_any p.resource

unfoldable pub add_policy : TrieRoot → PolicyNode → TrieRoot
add_policy t p =
    let t1 = record t {
      required_attributes = merge_attributes t.required_attributes p.required_attributes;
    } in
    if is_global p
    then record t1 { global_policies = t1.global_policies ++ p ∷ [] }
    else record t1 {
      subjects =
          add_to_subjects (build_key p.principal) (build_key p.resource) (build_key p.action) p
            t1.subjects;
    }

-- Both the scratch buffer of 32 keys and the heap slice for more hold the list and then "any".
unfoldable pub ensure_any : List Text → List Text
ensure_any list =
    if member any list
    then list
    else if ltb (length (take 32 list)) 32
    then take 32 list ++ any ∷ []
    else list ++ any ∷ []

-- `if actNode := findActionNode(…); actNode != nil { append(*buf, actNode.Policies...) }`
unfoldable pub action_policies : ResourceNode → ℕ → Text → List PolicyNode
action_policies n hash key = elim (find_action_node (n.actions hash) key) [
  | none ↦ []
  | some a ↦ a.policies
]

-- The two rounds of the loop over actionsToTry.
unfoldable pub try_actions : Text → ResourceNode → List PolicyNode
try_actions action n =
    action_policies n (fnv_hash action) action
    ++ (if fnv_hash action == fnv_hash any then [] else action_policies n (fnv_hash any) any)

unfoldable pub resource_policies : Text → SubjectNode → Text → List PolicyNode
resource_policies action s res = elim (find_resource_node (s.resources (fnv_hash res)) res) [
  | none ↦ []
  | some n ↦ try_actions action n
]

unfoldable pub subject_policies : TrieRoot → List Text → Text → Text → List PolicyNode
subject_policies t resources action sub = elim (find_subject_node (t.subjects (fnv_hash sub)) sub) [
  | none ↦ []
  | some s ↦ flat_map (resource_policies action s) resources
]

unfoldable pub lookup_policies : TrieRoot → List Text → List Text → Text → List PolicyNode
lookup_policies t subjects resources action =
    t.global_policies
    ++ flat_map (subject_policies t (ensure_any resources) action) (ensure_any subjects)
