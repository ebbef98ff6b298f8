-- ===== src/Dag/Closure.antt =====
-- dfsCollect and rebuildTransitiveClosure against the inheritance relation of the graph.
use standalone_policy_engine.Base.{
  ℕ, zero, suc, ◌<◌, ◌≡◌, ◌≢◌, refl, sym, ◌⊎◌, inl, inr, ◌↔◌, true, false, Option, none, some, [],
  ◌∷◌, length, In, In-append_left, In-append_right, In-append_cases, Bool-cases, arith,
}
use standalone_policy_engine.Base.Text.{Text, text_eq, text_eq_iff, text_eq_refl, text_eq_ne}
use standalone_policy_engine.Dag.{
  Adjacency, neighbors, roles, keys, Collect, mark, enter, dfs_collect, closure_of,
}
use standalone_policy_engine.Dag.Graph.{
  Inherits, direct, via, Inherits-snoc, neighbors-In-roles, keys-In-roles, unseen, unseen-lt,
  unseen-le-length,
}
use standalone_policy_engine.Dag.Coverage.{
  collect_all_lem, IsSound, Covers, IsGoodCollect, Searches,
}

IsSound-enter :
    (adj : Adjacency) (start current : Text) (s : Collect)
    → IsSound adj start s
    → (current ≡ start) ⊎ Inherits adj start current
    → IsSound adj start (enter start current s)
unfolding enter mark
IsSound-enter adj start current s h p = record {
  reached = λ x v. elim (Bool-cases (text_eq current x)) [
    | inl e ↦ rw (← (text_eq_iff current x).0 e) p
    | inr e ↦ h.reached x (rw e at v)
  ];
  only = λ x m. elim (Bool-cases (text_eq start current)) [
    | inl e ↦ let (v, n) = h.only x (rw e at m) in (ground arith, n)
    | inr e ↦ elim (In-append_cases x s.closure (current ∷ []) (rw e at m)) [
      | inl old ↦ let (v, n) = h.only x old in (ground arith, n)
      | inr new ↦ elim new [
        | inl q ↦ (rw (q, text_eq_refl current), rw q (text_eq_ne start current e))
        | inr none_left ↦ absurd none_left
      ]
    ]
  ];
  listed = λ x v. elim (Bool-cases (text_eq start current)) [
    | inl e ↦ rw e (elim (Bool-cases (text_eq current x)) [
      | inl q ↦ inl (sym ((text_eq_iff start x).0 (rw (← (text_eq_iff current x).0 q) e)))
      | inr q ↦ h.listed x (rw q at v)
    ])
    | inr e ↦ rw e (elim (Bool-cases (text_eq current x)) [
      | inl q ↦
          inr (In-append_right x s.closure (current ∷ []) (inl (sym ((text_eq_iff current x).0 q))))
      | inr q ↦ elim (h.listed x (rw q at v)) [
        | inl r ↦ inl r
        | inr r ↦ inr (In-append_left x s.closure (current ∷ []) r)
      ]
    ])
  ];
}

Covers-enter :
    (adj : Adjacency) (start current : Text) (s t : Collect)
    → Covers adj (neighbors adj current) (enter start current s) t
    → Covers adj (current ∷ []) s t
unfolding enter mark
Covers-enter adj start current s t k = record {
  grows = λ x h. k.grows x (ground arith);
  all = λ n. elim [ inl e ↦ k.grows n (rw (e, text_eq_refl current)) | inr m ↦ absurd m ];
  closed = λ x v. elim (k.closed x v) [
    | inr all ↦ inr all
    | inl old ↦ elim (Bool-cases (text_eq current x)) [
      | inl e ↦ inr (λ y m. k.all y (rw ((text_eq_iff current x).0 e) m))
      | inr e ↦ inl (rw e at old)
    ]
  ];
}

good_enter :
    (adj : Adjacency) (start current : Text) (s : Collect) (o : Option Collect)
    → IsGoodCollect adj start (neighbors adj current) (enter start current s) o
    → IsGoodCollect adj start (current ∷ []) s o
good_enter adj start current s none g = g
good_enter adj start current s (some t) g = (g.0, Covers-enter adj start current s t g.1)

unseen-enter :
    (adj : Adjacency) (start current : Text) (s : Collect) (fuel : ℕ)
    → s.visited current ≡ false
    → In current (roles adj)
    → unseen (roles adj) s.visited < suc fuel
    → unseen (roles adj) (enter start current s).visited < fuel
unfolding enter mark
unseen-enter adj start current s fuel f m u = omega (
  arith,
  unseen-lt (roles adj) s.visited (mark current s.visited) current (λ x h. ground arith) m f
      (rw (text_eq_refl current)),
)

dfs_collect_lem :
    (adj : Adjacency) (start : Text) (fuel : ℕ)
    → Searches adj start fuel (dfs_collect fuel adj start)
unfolding dfs_collect
dfs_collect_lem adj start zero n s r = absurd (omega arith)
dfs_collect_lem adj start (suc fuel) n s r = good_enter adj start n s _ (
    collect_all_lem adj start fuel (dfs_collect fuel adj start) (neighbors adj n) (enter start n s)
      (dfs_collect_lem adj start fuel) (λ m i. (neighbors-In-roles adj n m i, inr (extend m i)))
      (IsSound-enter adj start n s r.sound r.from_start)
      (unseen-enter adj start n s fuel r.fresh r.known r.fuelled))
  where
    extend : (m : Text) → In m (neighbors adj n) → Inherits adj start m
    extend m i = elim r.from_start [
      | inl e ↦ direct (rw e at i)
      | inr p ↦ Inherits-snoc adj start n m p i
    ]

abbrev nothing_visited : Collect
nothing_visited = record { visited = λ x. false; closure = [] }

covered :
    (adj : Adjacency) (start : Text) (t : Collect) (x y : Text)
    → Covers adj (start ∷ []) nothing_visited t
    → t.visited x ≡ true
    → Inherits adj x y
    → t.visited y ≡ true
covered adj start t x y k v (direct e) = elim (k.closed x v) [ inl f ↦ cc | inr all ↦ all y e ]
covered adj start t x y k v (via z e p) =
    covered adj start t z y k (elim (k.closed x v) [ inl f ↦ cc | inr all ↦ all z e ]) p

-- The collected list holds exactly the other roles that a key of the map inherits.
pub In-closure_of :
    (adj : Adjacency) (start x : Text)
    → In start (keys adj)
    → In x (closure_of adj start) ↔ ((start ≢ x) × Inherits adj start x)
unfolding closure_of
In-closure_of adj start x m =
    go (dfs_collect (suc (length (roles adj))) adj start start nothing_visited) (
      dfs_collect_lem adj start (suc (length (roles adj))) start nothing_visited (record {
        fresh = refl;
        sound = record { reached = λ y. cc; only = λ y e. absurd e; listed = λ y. cc };
        from_start = inl refl;
        known = keys-In-roles adj start m;
        fuelled = omega (arith, unseen-le-length (roles adj) (λ y. false));
      }))
  where
    go :
        (o : Option Collect)
        → IsGoodCollect adj start (start ∷ []) nothing_visited o
        → In x (elim o [ none ↦ [] | some s ↦ s.closure ]) ↔ ((start ≢ x) × Inherits adj start x)
    go none g = absurd g
    go (some t) g = (
      λ i.
          let (v, n) = g.0.only x i in
          (n, elim (g.0.reached x v) [ inl e ↦ absurd (n (sym e)) | inr p ↦ p ]),
      λ (n, p). elim (g.0.listed x (covered adj start t start x g.1 (g.1.all start (inl refl)) p)) [
        | inl e ↦ absurd (n (sym e))
        | inr i ↦ i
      ],
    )
