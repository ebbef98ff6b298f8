-- ===== src/Dag/Cycles.antt =====
-- hasCycle: its three-coloured search, and the cycles of the inheritance relation.
use standalone_policy_engine.Base.{
  ℕ, zero, suc, ◌<◌, ◌≡◌, ◌≢◌, refl, sym, inl, inr, ◌↔◌, true, List, [], ◌∷◌, length, In,
  Bool-cases, arith,
}
use standalone_policy_engine.Base.Text.{Text, text_eq, text_eq_iff, text_eq_refl}
use standalone_policy_engine.Dag.{
  Adjacency, neighbors, roles, keys, Color, white, gray, black, Colors, paint, Outcome, back_edge,
  finished, out_of_fuel, visit_all, close_node, dfs, visit_roots, search_cycles, has_cycle,
}
use standalone_policy_engine.Dag.Graph.{
  Inherits, direct, via, neighbors-In-roles, keys-In-roles, neighbors-In-keys, unseen, unseen-lt,
  unseen-le-length,
}
use standalone_policy_engine.Dag.Coloring.{
  painted, IsSettled, Keeps, HasCycle, IsGoodVisit, Keeps-refl, black_closed, IsSettled-gray,
  Searches, already_black, after_neighbor, LeadsTo, LeadsTo-neighbor, unseen-Keeps,
}

-- One round of that loop, by the color of the neighbor.
visit_neighbor :
    (adj : Adjacency) (fuel : ℕ) (search : Text → Colors → Outcome) (node n : Text) (ns : List Text)
    (c : Colors) (k : Color)
    → c n ≡ k
    → Searches adj fuel search
    → In n (neighbors adj node)
    → IsSettled adj c
    → LeadsTo adj c node
    → unseen (roles adj) (painted c) < fuel
    → ((d : Colors) → IsSettled adj d → Keeps c d → IsGoodVisit adj d ns (visit_all search ns d))
    → IsGoodVisit adj c (n ∷ ns) (visit_all search (n ∷ ns) c)
unfolding visit_all
visit_neighbor adj fuel search node n ns c gray e ih edge s p u go =
    rw (e, visit_all) (n, LeadsTo-neighbor adj c node n p edge n e)
visit_neighbor adj fuel search node n ns c black e ih edge s p u go =
    rw (e, visit_all)
      (already_black adj c c n ns (visit_all search ns c) (Keeps-refl c) e (go c s (Keeps-refl c)))
visit_neighbor adj fuel search node n ns c white e ih edge s p u go =
    rw (e, visit_all)
      (after_neighbor adj c n ns (search n c) (visit_all search ns)
        (ih n c (record {
          fresh = e;
          settled = s;
          on_path = LeadsTo-neighbor adj c node n p edge;
          known = neighbors-In-roles adj node n edge;
          fuelled = u;
        }))
        go)

-- The loop over the neighbors of `node`.
visit_all_lem :
    (adj : Adjacency) (fuel : ℕ) (search : Text → Colors → Outcome) (node : Text) (ns : List Text)
    (c : Colors)
    → Searches adj fuel search
    → ((n : Text) → In n ns → In n (neighbors adj node))
    → IsSettled adj c
    → LeadsTo adj c node
    → unseen (roles adj) (painted c) < fuel
    → IsGoodVisit adj c ns (visit_all search ns c)
unfolding visit_all
visit_all_lem adj fuel search node [] c ih edges s p u = (s, Keeps-refl c, λ n m. absurd m)
visit_all_lem adj fuel search node (n ∷ ns) c ih edges s p u =
    visit_neighbor adj fuel search node n ns c (c n) refl ih (edges n (inl refl)) s p u (λ d t k.
      visit_all_lem adj fuel search node ns d ih (λ m i. edges m (inr i)) t
        (λ g h. p g (k.no_new_grays g h)) (unseen-Keeps adj c d fuel k u))

paint_self : (k : Text) (v : Color) (c : Colors) → paint k v c k ≡ v
unfolding paint
paint_self k v c = rw (text_eq_refl k)

-- A node that is still gray when all its neighbors are finished lies on no cycle.
gray_acyclic :
    (adj : Adjacency) (d : Colors) (node : Text)
    → IsSettled adj d
    → d node ≡ gray
    → ((n : Text) → In n (neighbors adj node) → d n ≡ black)
    → ¬ Inherits adj node node
gray_acyclic adj d node s h all (direct e) = cc (all node e)
gray_acyclic adj d node s h all (via z e p) = cc (black_closed adj d z node s (all z e) p)

IsSettled-black :
    (adj : Adjacency) (d : Colors) (node : Text)
    → IsSettled adj d
    → d node ≡ gray
    → ((n : Text) → In n (neighbors adj node) → d n ≡ black)
    → IsSettled adj (paint node black d)
unfolding paint
IsSettled-black adj d node s h all = record {
  closed = λ x y b e. elim (Bool-cases (text_eq node x)) [
    | inl q ↦ ground (arith, all y (rw ((text_eq_iff node x).0 q) e))
    | inr q ↦ ground (arith, s.closed x y (rw q at b) e)
  ];
  acyclic = λ x b i. elim (Bool-cases (text_eq node x)) [
    | inl q ↦ let here = (text_eq_iff node x).0 q in gray_acyclic adj d node s h all (rw here i)
    | inr q ↦ s.acyclic x (rw q at b) i
  ];
}

-- Once the loop is through, `node` is finished too.
close_node_lem :
    (adj : Adjacency) (c : Colors) (node : Text) (o : Outcome)
    → c node ≡ white
    → IsGoodVisit adj (paint node gray c) (neighbors adj node) o
    → IsGoodVisit adj c (node ∷ []) (close_node node o)
unfolding close_node paint
close_node_lem adj c node back_edge w g = g
close_node_lem adj c node out_of_fuel w g = g
close_node_lem adj c node (finished d) w g = (
  IsSettled-black adj d node g.0 (g.1.grays node (paint_self node gray c)) g.2,
  record {
    blacks = λ x h. ground (arith, g.1.blacks x, text_eq_iff node x);
    grays = λ x h. ground (arith, g.1.grays x, text_eq_iff node x);
    no_new_grays = λ x h. ground (arith, g.1.no_new_grays x, text_eq_iff node x);
  },
  λ n. elim [ inl e ↦ ground (arith, text_eq_iff node n) | inr m ↦ absurd m ],
)

painted-paint :
    (n : Text) (c : Colors) (x : Text) → painted c x ≡ true → painted (paint n gray c) x ≡ true
unfolding paint
painted-paint n c x h = elim (Bool-cases (text_eq n x)) [
  | inl q ↦ rw (q, painted)
  | inr q ↦ rw (q, painted) h
]

LeadsTo-gray :
    (adj : Adjacency) (n : Text) (c : Colors)
    → ((g : Text) → c g ≡ gray → Inherits adj g n)
    → LeadsTo adj (paint n gray c) n
unfolding paint
LeadsTo-gray adj n c p g h = elim (Bool-cases (text_eq n g)) [
  | inl e ↦ inl (sym ((text_eq_iff n g).0 e))
  | inr e ↦ inr (p g (rw e at h))
]

unseen-gray :
    (adj : Adjacency) (fuel : ℕ) (n : Text) (c : Colors)
    → c n ≡ white
    → In n (roles adj)
    → unseen (roles adj) (painted c) < suc fuel
    → unseen (roles adj) (painted (paint n gray c)) < fuel
unseen-gray adj fuel n c w m u = omega (
  arith,
  unseen-lt (roles adj) (painted c) (painted (paint n gray c)) n (painted-paint n c) m
      (rw (w, painted)) (rw (paint_self n gray c, painted)),
)

dfs_lem : (adj : Adjacency) (fuel : ℕ) → Searches adj fuel (dfs fuel adj)
unfolding dfs
dfs_lem adj zero n c r = absurd (omega arith)
dfs_lem adj (suc fuel) n c r = close_node_lem adj c n _ r.fresh (
    visit_all_lem adj fuel (dfs fuel adj) n (neighbors adj n) (paint n gray c) (dfs_lem adj fuel)
      (λ m i. i) (IsSettled-gray adj c n r.fresh r.settled) (LeadsTo-gray adj n c r.on_path)
      (unseen-gray adj fuel n c r.fresh r.known r.fuelled))

visit_root :
    (adj : Adjacency) (fuel : ℕ) (n : Text) (ns : List Text) (c : Colors) (k : Color)
    → c n ≡ k
    → In n (roles adj)
    → IsSettled adj c
    → ((x : Text) → c x ≢ gray)
    → unseen (roles adj) (painted c) < fuel
    → ((d : Colors)
        → IsSettled adj d
        → Keeps c d
        → IsGoodVisit adj d ns (visit_roots (dfs fuel adj) ns d))
    → IsGoodVisit adj c (n ∷ ns) (visit_roots (dfs fuel adj) (n ∷ ns) c)
unfolding visit_roots
visit_root adj fuel n ns c gray e m s p u go = absurd (p n e)
visit_root adj fuel n ns c black e m s p u go =
    rw (e, visit_roots)
      (already_black adj c c n ns (visit_roots (dfs fuel adj) ns c) (Keeps-refl c) e
        (go c s (Keeps-refl c)))
visit_root adj fuel n ns c white e m s p u go =
    rw (e, visit_roots)
      (after_neighbor adj c n ns (dfs fuel adj n c) (visit_roots (dfs fuel adj) ns)
        (dfs_lem adj fuel n c (record {
          fresh = e;
          settled = s;
          on_path = λ g h. absurd (p g h);
          known = m;
          fuelled = u;
        }))
        go)

-- The loop over the keys, from a coloring with no gray node.
visit_roots_lem :
    (adj : Adjacency) (fuel : ℕ) (ns : List Text) (c : Colors)
    → ((n : Text) → In n ns → In n (roles adj))
    → IsSettled adj c
    → ((x : Text) → c x ≢ gray)
    → unseen (roles adj) (painted c) < fuel
    → IsGoodVisit adj c ns (visit_roots (dfs fuel adj) ns c)
unfolding visit_roots
visit_roots_lem adj fuel [] c m s p u = (s, Keeps-refl c, λ n m. absurd m)
visit_roots_lem adj fuel (n ∷ ns) c m s p u =
    visit_root adj fuel n ns c (c n) refl (m n (inl refl)) s p u (λ d t k.
      visit_roots_lem adj fuel ns d (λ x i. m x (inr i)) t (λ x h. p x (k.no_new_grays x h))
        (unseen-Keeps adj c d fuel k u))

search_cycles_lem : (adj : Adjacency) → IsGoodVisit adj (λ x. white) (keys adj) (search_cycles adj)
unfolding search_cycles
search_cycles_lem adj =
    visit_roots_lem adj (suc (length (roles adj))) (keys adj) (λ x. white) (keys-In-roles adj)
      (record { closed = λ x y h. cc; acyclic = λ x h. cc }) (λ x h. cc)
      (omega (arith, unseen-le-length (roles adj) (painted (λ x. white))))

-- The search of a map of direct edges never runs out of its fuel, whatever the map.
pub search_cycles-ne-out_of_fuel : (adj : Adjacency) → search_cycles adj ≢ out_of_fuel
search_cycles-ne-out_of_fuel adj = go (search_cycles adj) (search_cycles_lem adj)
  where
    go : (o : Outcome) → IsGoodVisit adj (λ x. white) (keys adj) o → o ≢ out_of_fuel
    go back_edge g e = cc
    go (finished d) g e = cc
    go out_of_fuel g e = g

finished_acyclic :
    (adj : Adjacency) (d : Colors)
    → IsGoodVisit adj (λ x. white) (keys adj) (finished d)
    → (x : Text) → ¬ Inherits adj x x
finished_acyclic adj d g x (direct e) =
    g.0.acyclic x (g.2 x (neighbors-In-keys adj x x e)) (direct e)
finished_acyclic adj d g x (via z e p) =
    g.0.acyclic x (g.2 x (neighbors-In-keys adj x z e)) (via z e p)

-- hasCycle answers true exactly when some role inherits itself, directly or through other roles.
pub has_cycle_iff : (adj : Adjacency) → (has_cycle adj ≡ true) ↔ ((x : Text) × Inherits adj x x)
unfolding has_cycle
has_cycle_iff adj = go (search_cycles adj) refl (search_cycles_lem adj)
  where
    go :
        (o : Outcome)
        → search_cycles adj ≡ o
        → IsGoodVisit adj (λ x. white) (keys adj) o
        → (has_cycle adj ≡ true) ↔ HasCycle adj
    go back_edge e g = (λ h. g, λ h. cc)
    go (finished d) e g = (λ h. cc, λ (x, i). absurd (finished_acyclic adj d g x i))
    go out_of_fuel e g = absurd g
