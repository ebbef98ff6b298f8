-- ===== src/Dag/Add.antt =====
-- AddInheritance against the inheritance relation of the graph.
use standalone_policy_engine.Base.{
  ap, ◌≡◌, ◌≢◌, refl, sym, ◌⊎◌, inl, inr, ◌↔◌, true, false, [], ◌∷◌, ◌++◌, In, In-append_left,
  In-append_right, In-append_cases, Bool-cases, if◌then◌else◌, arith,
}
use standalone_policy_engine.Base.Text.{Text, text_eq, text_eq_iff, text_eq_refl, text_eq_of_ne}
use standalone_policy_engine.Dag.{
  Adjacency, neighbors, keys, add_edge, has_cycle, RoleDag, new_role_dag,
  rebuild_transitive_closure, added, rejected, self_inheritance, cycle_found, add_inheritance,
}
use standalone_policy_engine.Dag.Graph.{Inherits, direct, via, Inherits-snoc}
use standalone_policy_engine.Dag.Cycles.{has_cycle_iff}

neighbors-add_edge :
    (p c : Text) (adj : Adjacency) (x : Text)
    → neighbors (add_edge p c adj) x
      ≡ (if text_eq p x then neighbors adj x ++ c ∷ [] else neighbors adj x)
unfolding neighbors add_edge
neighbors-add_edge p c [] x = ground arith
neighbors-add_edge p c ((j, w) ∷ adj) x =
    ground (arith, neighbors-add_edge p c adj x, text_eq_iff j p, text_eq_iff p x, text_eq_iff j x)

-- An edge of the extended map is an old one, or the new one.
edge_cases :
    (p c : Text) (adj : Adjacency) (x y : Text)
    → In y (neighbors (add_edge p c adj) x)
    → In y (neighbors adj x) ⊎ ((x ≡ p) × (y ≡ c))
edge_cases p c adj x y m = elim (Bool-cases (text_eq p x)) [
  | inl e ↦
      elim (In-append_cases y (neighbors adj x) (c ∷ [])
        (rw (neighbors-add_edge p c adj x, e) at m)) [
          | inl old ↦ inl old
          | inr new ↦ elim new [
            | inl q ↦ inr (sym ((text_eq_iff p x).0 e), q)
            | inr none_left ↦ absurd none_left
          ]
        ]
  | inr e ↦ inl (rw (neighbors-add_edge p c adj x, e) at m)
]

old_edge :
    (p c : Text) (adj : Adjacency) (x y : Text)
    → In y (neighbors adj x)
    → In y (neighbors (add_edge p c adj) x)
old_edge p c adj x y m =
    rw (neighbors-add_edge p c adj x)
      (elim (text_eq p x)
        as (λ b. In y (if b then neighbors adj x ++ c ∷ [] else neighbors adj x)) [
          | true ↦ In-append_left y (neighbors adj x) (c ∷ []) m
          | false ↦ m
        ])

new_edge : (p c : Text) (adj : Adjacency) → In c (neighbors (add_edge p c adj) p)
new_edge p c adj =
    rw (neighbors-add_edge p c adj p, text_eq_refl p)
      (In-append_right c (neighbors adj p) (c ∷ []) (inl refl))

-- `y` is `x` or is inherited by it.
abbrev pub InheritsOrIs : Adjacency → Text → Text → Type 0
InheritsOrIs adj x y = (x ≡ y) ⊎ Inherits adj x y

InheritsOrIs-cons :
    (adj : Adjacency) (x z y : Text)
    → In z (neighbors adj x)
    → InheritsOrIs adj z y
    → InheritsOrIs adj x y
InheritsOrIs-cons adj x z y e (inl p) = inr (direct (rw p at e))
InheritsOrIs-cons adj x z y e (inr p) = inr (via z e p)

old_path :
    (p c : Text) (adj : Adjacency) (x y : Text) → Inherits adj x y → Inherits (add_edge p c adj) x y
old_path p c adj x y (direct e) = direct (old_edge p c adj x y e)
old_path p c adj x y (via z e q) = via z (old_edge p c adj x z e) (old_path p c adj z y q)

-- What the new edge makes a role inherit: nothing new, or a path through the edge.
path_cases :
    (p c : Text) (adj : Adjacency) (x y : Text)
    → Inherits (add_edge p c adj) x y
    → Inherits adj x y ⊎ (InheritsOrIs adj x p × InheritsOrIs adj c y)
path_cases p c adj x y (direct e) = elim (edge_cases p c adj x y e) [
  | inl old ↦ inl (direct old)
  | inr (ep, ec) ↦ inr (inl ep, inl (sym ec))
]
path_cases p c adj x y (via z e q) = elim (path_cases p c adj z y q) [
  | inl later ↦ elim (edge_cases p c adj x z e) [
    | inl old ↦ inl (via z old later)
    | inr (ep, ec) ↦ inr (inl ep, inr (rw ec at later))
  ]
  | inr (before, after) ↦ elim (edge_cases p c adj x z e) [
    | inl old ↦ inr (InheritsOrIs-cons adj x z p old before, after)
    | inr (ep, ec) ↦ inr (inl ep, after)
  ]
]

Inherits-trans :
    (adj : Adjacency) (x y z : Text) → Inherits adj x y → Inherits adj y z → Inherits adj x z
Inherits-trans adj x y z (direct e) q = via y e q
Inherits-trans adj x y z (via w e p) q = via w e (Inherits-trans adj w y z p q)

InheritsOrIs-trans :
    (adj : Adjacency) (x y z : Text)
    → InheritsOrIs adj x y
    → InheritsOrIs adj y z
    → InheritsOrIs adj x z
InheritsOrIs-trans adj x y z (inl e) q = rw e q
InheritsOrIs-trans adj x y z (inr p) (inl e) = inr (rw e at p)
InheritsOrIs-trans adj x y z (inr p) (inr q) = inr (Inherits-trans adj x y z p q)

through_edge :
    (p c : Text) (adj : Adjacency) (x y : Text)
    → InheritsOrIs adj x p
    → InheritsOrIs adj c y
    → Inherits (add_edge p c adj) x y
through_edge p c adj x y (inl e) (inl f) = rw (e, ← f) (direct (new_edge p c adj))
through_edge p c adj x y (inl e) (inr q) = rw e (via c (new_edge p c adj) (old_path p c adj c y q))
through_edge p c adj x y (inr q) (inl f) =
    rw (← f) (Inherits-snoc (add_edge p c adj) x p c (old_path p c adj x p q) (new_edge p c adj))
through_edge p c adj x y (inr q) (inr r) =
    Inherits-trans (add_edge p c adj) x p y (old_path p c adj x p q)
      (via c (new_edge p c adj) (old_path p c adj c y r))

-- A hierarchy whose tables are those of its edges, and in which no role inherits itself.
pub record IsValid (g : RoleDag) : Type 0 where
  pub tables : g ≡ rebuild_transitive_closure g.adj
  pub acyclic : (x : Text) → ¬ Inherits g.adj x x

pub new_role_dag-IsValid : IsValid new_role_dag
unfolding new_role_dag rebuild_transitive_closure neighbors keys
new_role_dag-IsValid = record { tables = refl; acyclic = λ x. none_at x x }
  where
    none_at : (x y : Text) → ¬ Inherits [] x y
    none_at x y (direct e) = e
    none_at x y (via z e p) = e

-- The new edge closes a cycle exactly when its child already inherits its parent.
closes_cycle_iff :
    (g : RoleDag) (p c : Text)
    → IsValid g
    → p ≢ c
    → (has_cycle (add_edge p c g.adj) ≡ true) ↔ Inherits g.adj c p
closes_cycle_iff g p c v n = (
  λ h.
      let (x, i) = (has_cycle_iff (add_edge p c g.adj)).0 h in
      elim (path_cases p c g.adj x x i) [
        | inl old ↦ absurd (v.acyclic x old)
        | inr (before, after) ↦ elim (InheritsOrIs-trans g.adj c x p after before) [
          | inl e ↦ absurd (n (sym e))
          | inr q ↦ q
        ]
      ],
  λ q. (has_cycle_iff (add_edge p c g.adj)).1 (p, through_edge p c g.adj p p (inl refl) (inr q)),
)

rebuild-IsValid :
    (adj : Adjacency) → has_cycle adj ≡ false → IsValid (rebuild_transitive_closure adj)
unfolding rebuild_transitive_closure
rebuild-IsValid adj e = record { tables = refl; acyclic = λ x i. cc ((has_cycle_iff adj).1 (x, i)) }

-- An edge that is taken leaves a valid hierarchy, whatever there was before.
pub added-IsValid :
    (g : RoleDag) (parent child : Text) (h : RoleDag)
    → add_inheritance g parent child ≡ added h
    → IsValid h
unfolding add_inheritance
added-IsValid g parent child h e = elim (Bool-cases (text_eq parent child)) [
  | inl same ↦ absurd (let k = rw same at e in cc)
  | inr other ↦ elim (Bool-cases (has_cycle (add_edge parent child g.adj))) [
    | inl bad ↦ absurd (let k = rw (other, bad) at e in cc)
    | inr fine ↦
        let k = rw (other, fine) at e in
        let q : rebuild_transitive_closure (add_edge parent child g.adj) ≡ h = cc in
        rw (← q) (rebuild-IsValid (add_edge parent child g.adj) fine)
  ]
]

pub added-adj :
    (g : RoleDag) (parent child : Text) (h : RoleDag)
    → add_inheritance g parent child ≡ added h
    → h.adj ≡ add_edge parent child g.adj
unfolding add_inheritance rebuild_transitive_closure
added-adj g parent child h e = elim (Bool-cases (text_eq parent child)) [
  | inl same ↦ absurd (let k = rw same at e in cc)
  | inr other ↦ elim (Bool-cases (has_cycle (add_edge parent child g.adj))) [
    | inl bad ↦ absurd (let k = rw (other, bad) at e in cc)
    | inr fine ↦
        let k = rw (other, fine) at e in
        let q : rebuild_transitive_closure (add_edge parent child g.adj) ≡ h = cc in
        ap (λ z. z.adj) (sym q)
  ]
]

-- AddInheritance on a valid hierarchy, for all edges. An edge from a role to itself is rejected;
-- any other is rejected as a cycle exactly when the child already inherits the parent; any edge
-- that is left gives a valid hierarchy over the old edges and the new one.
pub add_inheritance_lem :
    (g : RoleDag) (parent child : Text)
    → IsValid g
    → (parent ≡ child → add_inheritance g parent child ≡ rejected self_inheritance)
      × (parent ≢ child
          → Inherits g.adj child parent
          → add_inheritance g parent child ≡ rejected cycle_found)
      × (parent ≢ child
          → ¬ Inherits g.adj child parent
          → (h : RoleDag) × (add_inheritance g parent child ≡ added h)
            × IsValid h
            × (h.adj ≡ add_edge parent child g.adj))
unfolding add_inheritance rebuild_transitive_closure
add_inheritance_lem g parent child v = (
  λ e. rw (e, text_eq_refl child),
  λ n q. rw (text_eq_of_ne parent child n, (closes_cycle_iff g parent child v n).1 q),
  λ n q.
      let open_edge = no_cycle n q in
      (
        rebuild_transitive_closure (add_edge parent child g.adj),
        rw (text_eq_of_ne parent child n, open_edge),
        rebuild-IsValid (add_edge parent child g.adj) open_edge,
        refl,
      ),
)
  where
    no_cycle :
        parent ≢ child
        → ¬ Inherits g.adj child parent
        → has_cycle (add_edge parent child g.adj) ≡ false
    no_cycle n q = elim (Bool-cases (has_cycle (add_edge parent child g.adj))) [
      | inl e ↦ absurd (q ((closes_cycle_iff g parent child v n).0 e))
      | inr e ↦ e
    ]
