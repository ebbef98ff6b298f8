-- ===== src/Decision/Verdict.antt =====
-- What decides a request, over the policies that were loaded.
use standalone_policy_engine.Base.{
  ◌≡◌, refl, sym, ap, inl, inr, Option, ◌∙◌, ◌↔◌, Bool, true, false, none, some, List, [], ◌∷◌, In,
}
use standalone_policy_engine.Ast.{PolicyNode, ScopeNode, Effect, permit, forbid}
use standalone_policy_engine.Platform.{Platform}
use standalone_policy_engine.Dag.{get_inherited_roles}
use standalone_policy_engine.Trie.{TrieRoot, fnv_hash, any, add_policy, is_any, is_global}
use standalone_policy_engine.Trie.Keys.{IsEmpty, IsReached, index}
use standalone_policy_engine.Trie.Lookup.{In-lookup_policies}
use standalone_policy_engine.Decision.{
  allow, deny_no_match, normalize_action, is_satisfied, scan, decide_by, Request, matched_policies,
  context_of, evaluate_permission, deny_with,
}
use standalone_policy_engine.Decision.Scan.{HasSatisfied, IsJustified, scan-IsScan, by_firsts}

-- evaluatePermission over the policies that match a request. It allows exactly when some of them
-- is a satisfied permit and none is a satisfied forbid; its reason is a forbid exactly when some of
-- them is a satisfied forbid; and in both cases the explanations and obligations are those of such
-- a policy.
pub evaluate_permission-IsJustified :
    (lib : Platform) (t : TrieRoot) (r : Request)
    → IsJustified lib (context_of t r) (matched_policies t r) (evaluate_permission lib t r)
unfolding evaluate_permission
evaluate_permission-IsJustified lib t r = go (matched_policies t r)
  where
    go :
        (ps : List PolicyNode)
        → IsJustified lib (context_of t r) ps (elim ps [
          | [] ↦ deny_with deny_no_match
          | p ∷ qs ↦ decide_by (scan lib (context_of t r) (p ∷ qs) none)
        ])
    go [] = record {
      allowed = (λ k. cc, λ k. absurd (k.0.1));
      forbidden = (λ k. cc, λ k. absurd (k.1));
      named_permit = λ k. cc;
      named_forbid = λ k. cc;
    }
    go (p ∷ qs) =
        let f = scan lib (context_of t r) (p ∷ qs) none in
        by_firsts lib (context_of t r) (p ∷ qs) f f.first_forbid f.first_permit refl refl
          (scan-IsScan lib (context_of t r) (p ∷ qs) none)

pub role_dag-index :
    (base : TrieRoot) (ps : List PolicyNode) → (index base ps).role_dag ≡ base.role_dag
role_dag-index base [] = refl
role_dag-index base (p ∷ ps) = role_dag-index (add_policy base p) ps ∙ one (is_global p) refl
  where
    one : (b : Bool) → is_global p ≡ b → (add_policy base p).role_dag ≡ base.role_dag
    one true e = unfold add_policy in rw e
    one false e = unfold add_policy in rw e

-- The request's action and the wildcard do not collide.
abbrev pub NoCollision : Request → Type 0
NoCollision r =
    fnv_hash (normalize_action r.action) ≡ fnv_hash any → normalize_action r.action ≡ any

-- A loaded policy of this effect that the request's keys reach and whose condition is satisfied.
abbrev pub HasEffective : Platform → TrieRoot → List PolicyNode → Request → Effect → Type 0
HasEffective lib base ps r e =
    (p : PolicyNode) × In p ps
    × IsReached (get_inherited_roles (some base.role_dag) r.subject) (r.resource_id ∷ [])
        (normalize_action r.action) p
    × (p.effect ≡ e)
    × (is_satisfied lib (context_of base r) p ≡ true)

context_of-index :
    (base : TrieRoot) (ps : List PolicyNode) (r : Request)
    → context_of (index base ps) r ≡ context_of base r
context_of-index base ps r = rw (role_dag-index base ps)

In-matched_policies :
    (base : TrieRoot) (ps : List PolicyNode) (r : Request) (p : PolicyNode)
    → IsEmpty base
    → NoCollision r
    → In p (matched_policies (index base ps) r) ↔ (
        In p ps
        × IsReached
            (get_inherited_roles (some base.role_dag) r.subject)
            (r.resource_id ∷ [])
            (normalize_action r.action)
            p)
unfolding matched_policies
In-matched_policies base ps r p v h = rw (role_dag-index base ps) (
    In-lookup_policies base ps (get_inherited_roles (some base.role_dag) r.subject)
      (r.resource_id ∷ []) (normalize_action r.action) p v h)

HasSatisfied-iff :
    (lib : Platform) (base : TrieRoot) (ps : List PolicyNode) (r : Request) (e : Effect)
    → IsEmpty base
    → NoCollision r
    → HasSatisfied lib (context_of (index base ps) r) e (matched_policies (index base ps) r)
      ↔ HasEffective lib base ps r e
HasSatisfied-iff lib base ps r e v h = (
  λ (p, m, f, s).
      let (mp, k) = (In-matched_policies base ps r p v h).0 m in
      (p, mp, k, f, rw (context_of-index base ps r) at s),
  λ (p, mp, k, f, s).
      (p, (In-matched_policies base ps r p v h).1 (mp, k), f, rw (context_of-index base ps r) s),
)

-- The decision over loaded policies, whatever their order: allowed exactly when some permit is
-- effective and no forbid is. It holds where the hash of the action does not collide with that of
-- the wildcard.
pub allow_iff :
    (lib : Platform) (base : TrieRoot) (ps : List PolicyNode) (r : Request)
    → IsEmpty base
    → NoCollision r
    → (evaluate_permission lib (index base ps) r).decision ≡ allow
      ↔ (HasEffective lib base ps r permit × (¬ HasEffective lib base ps r forbid))
allow_iff lib base ps r v h =
    let j = (evaluate_permission-IsJustified lib (index base ps) r).allowed in
    let p = HasSatisfied-iff lib base ps r permit v h in
    let f = HasSatisfied-iff lib base ps r forbid v h in
    (λ e. let (a, b) = j.0 e in (p.0 a, λ k. b (f.1 k)), λ (a, b). j.1 (p.1 a, λ k. b (f.0 k)))

-- A policy with another action in its scope.
abbrev for_action : Option ScopeNode → PolicyNode → PolicyNode
for_action a p = record p { action = a }

for_action-HasEffective :
    (lib : Platform) (base : TrieRoot) (ps : List PolicyNode) (r : Request) (p : PolicyNode)
    (a b : Option ScopeNode) (e : Effect)
    → is_any p.principal ≡ true
    → is_any p.resource ≡ true
    → HasEffective lib base (for_action a p ∷ ps) r e
    → HasEffective lib base (for_action b p ∷ ps) r e
unfolding is_satisfied
for_action-HasEffective lib base ps r p a b e x y (q, inr m, k, f, s) = (q, inr m, k, f, s)
for_action-HasEffective lib base ps r p a b e x y (q, inl m, k, f, s) = (
  for_action b p,
  inl refl,
  inl (x, y),
  ap (λ z. z.effect) (sym m) ∙ f,
  ap (λ z. is_satisfied lib (context_of base r) z) (sym m) ∙ s,
)

-- Whatever a request asks for, an action in the scope of a policy whose principal and resource are
-- wildcards plays no part: with any other action there, the request is allowed or not as before. It
-- holds where the hash of the action asked for does not collide with that of the wildcard.
pub scope_action_ignored :
    (lib : Platform) (base : TrieRoot) (ps : List PolicyNode) (r : Request) (p : PolicyNode)
    (a b : Option ScopeNode)
    → IsEmpty base
    → NoCollision r
    → is_any p.principal ≡ true
    → is_any p.resource ≡ true
    → (evaluate_permission lib (index base (record p { action = a } ∷ ps)) r).decision ≡ allow
      ↔ ((evaluate_permission lib (index base (record p { action = b } ∷ ps)) r).decision ≡ allow)
scope_action_ignored lib base ps r p a b v h x y = (one_way a b, one_way b a)
  where
    one_way :
        (a b : Option ScopeNode)
        → (evaluate_permission lib (index base (for_action a p ∷ ps)) r).decision ≡ allow
        → (evaluate_permission lib (index base (for_action b p ∷ ps)) r).decision ≡ allow
    one_way a b k =
        let (allowed, unforbidden) = (allow_iff lib base (for_action a p ∷ ps) r v h).0 k in
        (allow_iff lib base (for_action b p ∷ ps) r v h).1 (
          for_action-HasEffective lib base ps r p a b permit x y allowed,
          λ f. unforbidden (for_action-HasEffective lib base ps r p b a forbid x y f),
        )
