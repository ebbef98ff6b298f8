-- ===== src/Trie/Leaves.antt =====
-- What AddPolicy stores under a subject, a resource and an action, whatever the hashes.
use standalone_policy_engine.Base.{
  ◌≡◌, refl, sym, ap, ◌∙◌, inl, inr, Bool, true, false, not, ◌&&◌, Option, none, some, List, [],
  ◌∷◌, ◌++◌, foldl, keep_if, Bool-cases, if◌then◌else◌, append-nil, append_assoc, arith,
}
use standalone_policy_engine.Base.Text.{Text, text_eq, text_eq_iff}
use standalone_policy_engine.Ast.{PolicyNode}
use standalone_policy_engine.Trie.{
  Buckets, ResourceNode, SubjectNode, TrieRoot, fnv_hash, build_key, find_node, find_or_create,
  find_subject_node, find_resource_node, find_action_node, at_hash, append_policy, add_to_resource,
  add_to_subject, add_to_subjects, is_global, add_policy, action_policies,
}

abbrev or_fresh : {A : Type 0} → Option A → A → A
or_fresh none fresh = fresh
or_fresh (some n) fresh = n

abbrev pub when_true : Bool → PolicyNode → List PolicyNode
when_true b p = if b then p ∷ [] else []

module _ {A : Type 0} (key_of : A → Text) (key : Text) (fresh : A) (change : A → A) where
  find_node-find_or_create :
      (ns : List A) (k : Text)
      → key_of (change fresh) ≡ key
      → ((n : A) → key_of (change n) ≡ key_of n)
      → find_node key_of (find_or_create key_of key fresh change ns) k ≡ (
          if text_eq key k
          then some (change (or_fresh (find_node key_of ns key) fresh))
          else find_node key_of ns k)
  unfolding find_node find_or_create
  find_node-find_or_create [] k f c = rw f
  find_node-find_or_create (n ∷ ns) k f c = ground (
    arith,
    c n,
    find_node-find_or_create ns k f c,
    text_eq_iff (key_of n) key,
    text_eq_iff (key_of n) k,
    text_eq_iff key k,
  )

  -- A bucket's other nodes, and the other buckets, are as before.
  find_node-at_hash :
      (m : Buckets A) (k : Text)
      → key_of (change fresh) ≡ key
      → ((n : A) → key_of (change n) ≡ key_of n)
      → find_node key_of
          (at_hash (fnv_hash key) (find_or_create key_of key fresh change) m (fnv_hash k))
          k
        ≡ (if text_eq key k
            then some (change (or_fresh (find_node key_of (m (fnv_hash key)) key) fresh))
            else find_node key_of (m (fnv_hash k)) k)
  unfolding at_hash
  find_node-at_hash m k f c =
      ground (arith, text_eq_iff key k, find_node-find_or_create (m (fnv_hash k)) k f c)

  -- A reading of one node that the change extends is extended at the key, and only there.
  read-at_hash :
      (read : Option A → List PolicyNode) (extra : List PolicyNode) (m : Buckets A) (k : Text)
      → key_of (change fresh) ≡ key
      → ((n : A) → key_of (change n) ≡ key_of n)
      → ((o : Option A) → read (some (change (or_fresh o fresh))) ≡ read o ++ extra)
      → read (
          find_node key_of
            (at_hash (fnv_hash key) (find_or_create key_of key fresh change) m (fnv_hash k))
            k)
        ≡ read (find_node key_of (m (fnv_hash k)) k) ++ (if text_eq key k then extra else [])
  read-at_hash read extra m k f c h =
      ap read (find_node-at_hash m k f c) ∙ by_key (text_eq key k) refl
    where
      at : Text → Option A
      at j = find_node key_of (m (fnv_hash j)) j

      by_key :
          (b : Bool)
          → text_eq key k ≡ b
          → read (if b then some (change (or_fresh (at key) fresh)) else at k)
            ≡ read (at k) ++ (if b then extra else [])
      by_key true e = h (at key) ∙ ap (λ j. read (at j) ++ extra) ((text_eq_iff key k).0 e)
      by_key false e = sym (append-nil (read (at k)))

-- The policies under an action of a resource's node.
action_policies-add :
    (act a : Text) (p : PolicyNode) (n : ResourceNode)
    → action_policies (add_to_resource act p n) (fnv_hash a) a
      ≡ action_policies n (fnv_hash a) a ++ when_true (text_eq act a) p
unfolding action_policies add_to_resource find_action_node append_policy
action_policies-add act a p n =
    read-at_hash (λ b. b.key) act (record { key = act; policies = [] }) (append_policy p)
      (λ o. elim o [ none ↦ [] | some b ↦ b.policies ]) (p ∷ []) n.actions a refl (λ b. refl)
      (elim [ none ↦ refl | some b ↦ refl ])

-- The policies under a resource and an action of a subject's node.
unfoldable pub resource_leaf : Text → Option ResourceNode → List PolicyNode
resource_leaf a none = []
resource_leaf a (some n) = action_policies n (fnv_hash a) a

unfoldable pub subject_leaf : Text → Text → Option SubjectNode → List PolicyNode
subject_leaf r a none = []
subject_leaf r a (some s) = resource_leaf a (find_resource_node (s.resources (fnv_hash r)) r)

-- The policies stored under a subject, a resource and an action.
unfoldable pub leaf : Buckets SubjectNode → Text → Text → Text → List PolicyNode
leaf m s r a = subject_leaf r a (find_subject_node (m (fnv_hash s)) s)

when_and : (b c : Bool) (p : PolicyNode) → (if b then when_true c p else []) ≡ when_true (b && c) p
when_and true c p = refl
when_and false c p = refl

resource_leaf-add :
    (act a : Text) (p : PolicyNode) (key : Text) (o : Option ResourceNode)
    → resource_leaf a
        (some (add_to_resource act p (or_fresh o (record { key = key; actions = λ h. [] }))))
      ≡ resource_leaf a o ++ when_true (text_eq act a) p
unfolding resource_leaf
resource_leaf-add act a p key none =
    action_policies-add act a p (record { key = key; actions = λ h. [] })
    ∙ ap (λ l. l ++ when_true (text_eq act a) p) (no_node act a key)
  where
    no_node :
        (act a key : Text)
        → action_policies (record { key = key; actions = λ h. [] }) (fnv_hash a) a ≡ []
    no_node act a key = unfold action_policies find_action_node find_node in refl
resource_leaf-add act a p key (some n) = action_policies-add act a p n

subject_leaf-add :
    (res act r a : Text) (p : PolicyNode) (n : SubjectNode)
    → subject_leaf r a (some (add_to_subject res act p n))
      ≡ subject_leaf r a (some n) ++ when_true (text_eq res r && text_eq act a) p
unfolding subject_leaf add_to_subject find_resource_node
subject_leaf-add res act r a p n =
    read-at_hash (λ b. b.key) res (record { key = res; actions = λ h. [] }) (add_to_resource act p)
      (resource_leaf a) (when_true (text_eq act a) p) n.resources r (unfold add_to_resource in refl)
      (λ b. unfold add_to_resource in refl) (resource_leaf-add act a p res)
    ∙ ap (λ l. subject_leaf r a (some n) ++ l) (when_and (text_eq res r) (text_eq act a) p)

subject_leaf-fresh :
    (r a key : Text) → subject_leaf r a (some (record { key = key; resources = λ h. [] })) ≡ []
unfolding subject_leaf resource_leaf find_resource_node find_node
subject_leaf-fresh r a key = refl

leaf-add_to_subjects :
    (sub res act s r a : Text) (p : PolicyNode) (m : Buckets SubjectNode)
    → leaf (add_to_subjects sub res act p m) s r a
      ≡ leaf m s r a ++ when_true (text_eq sub s && (text_eq res r && text_eq act a)) p
unfolding leaf add_to_subjects find_subject_node subject_leaf
leaf-add_to_subjects sub res act s r a p m =
    read-at_hash (λ b. b.key) sub (record { key = sub; resources = λ h. [] })
      (add_to_subject res act p) (subject_leaf r a) (when_true (text_eq res r && text_eq act a) p) m
      s (unfold add_to_subject in refl) (λ b. unfold add_to_subject in refl) by_node
    ∙ ap (λ l. leaf m s r a ++ l) (when_and (text_eq sub s) (text_eq res r && text_eq act a) p)
  where
    by_node :
        (o : Option SubjectNode)
        → subject_leaf r a (
            some
              (add_to_subject res act p (or_fresh o (record { key = sub; resources = λ h. [] }))))
          ≡ subject_leaf r a o ++ when_true (text_eq res r && text_eq act a) p
    by_node none =
        subject_leaf-add res act r a p (record { key = sub; resources = λ h. [] })
        ∙ ap (λ l. l ++ when_true (text_eq res r && text_eq act a) p) (subject_leaf-fresh r a sub)
    by_node (some n) = subject_leaf-add res act r a p n

-- The policy is stored under these keys: it is not global, and the keys are its own.
unfoldable pub is_stored_at : Text → Text → Text → PolicyNode → Bool
is_stored_at s r a p =
    not (is_global p)
    && (text_eq (build_key p.principal) s
        && (text_eq (build_key p.resource) r && text_eq (build_key p.action) a))

keep_one :
    (b : Bool) (p : PolicyNode) (l : List PolicyNode)
    → when_true b p ++ l ≡ (if b then p ∷ l else l)
keep_one true p l = refl
keep_one false p l = refl

leaf-add_policy :
    (t : TrieRoot) (p : PolicyNode) (s r a : Text)
    → leaf (add_policy t p).subjects s r a
      ≡ leaf t.subjects s r a ++ when_true (is_stored_at s r a p) p
unfolding add_policy is_stored_at
leaf-add_policy t p s r a = elim (Bool-cases (is_global p)) [
  | inl g ↦ rw g (sym (append-nil _))
  | inr g ↦ rw g (leaf-add_to_subjects _ _ _ s r a p t.subjects)
]

-- After a run of additions, each leaf holds what it held and then the policies with its keys.
pub leaf-foldl :
    (ps : List PolicyNode) (t : TrieRoot) (s r a : Text)
    → leaf (foldl add_policy t ps).subjects s r a
      ≡ leaf t.subjects s r a ++ keep_if (is_stored_at s r a) ps
leaf-foldl [] t s r a = sym (append-nil _)
leaf-foldl (p ∷ ps) t s r a =
    leaf-foldl ps (add_policy t p) s r a
    ∙ ap (λ l. l ++ keep_if (is_stored_at s r a) ps) (leaf-add_policy t p s r a)
    ∙ append_assoc (leaf t.subjects s r a) (when_true (is_stored_at s r a p) p)
        (keep_if (is_stored_at s r a) ps)
    ∙ ap (λ l. leaf t.subjects s r a ++ l)
        (keep_one (is_stored_at s r a p) p (keep_if (is_stored_at s r a) ps))

-- The global policies are those of wildcard principal and resource, in the order of their addition.
pub global-foldl :
    (ps : List PolicyNode) (t : TrieRoot)
    → (foldl add_policy t ps).global_policies ≡ t.global_policies ++ keep_if is_global ps
global-foldl [] t = sym (append-nil _)
global-foldl (p ∷ ps) t =
    global-foldl ps (add_policy t p)
    ∙ ap (λ l. l ++ keep_if is_global ps) (one (is_global p) refl)
    ∙ append_assoc t.global_policies (when_true (is_global p) p) (keep_if is_global ps)
    ∙ ap (λ l. t.global_policies ++ l) (keep_one (is_global p) p (keep_if is_global ps))
  where
    one :
        (b : Bool)
        → is_global p ≡ b
        → (add_policy t p).global_policies ≡ t.global_policies ++ when_true b p
    one true e = unfold add_policy in rw e
    one false e = unfold add_policy in rw e (sym (append-nil _))
