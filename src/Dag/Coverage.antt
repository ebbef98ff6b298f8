-- ===== src/Dag/Coverage.antt =====
-- What a search of dfsCollect has visited, from one state to a later one.
use standalone_policy_engine.Base.{
  ℕ, ◌<◌, ◌≡◌, ◌≢◌, refl, ◌⊎◌, inl, inr, Bool, true, false, Option, none, some, List, [], ◌∷◌, In,
  arith,
}
use standalone_policy_engine.Base.Text.{Text}
use standalone_policy_engine.Dag.{Adjacency, neighbors, roles, Collect, collect_all}
use standalone_policy_engine.Dag.Graph.{Inherits, unseen, unseen_mono}

-- What is visited is reached from `start`, and the collected keys are the visited ones but `start`.
pub record IsSound (adj : Adjacency) (start : Text) (s : Collect) : Type 0 where
  pub reached : (x : Text) → s.visited x ≡ true → (x ≡ start) ⊎ Inherits adj start x
  pub only : (x : Text) → In x s.closure → (s.visited x ≡ true) × (start ≢ x)
  pub listed : (x : Text) → s.visited x ≡ true → (x ≡ start) ⊎ In x s.closure

-- From `s` to `t` all of `ns` has been visited, and with each new node its neighbors.
pub record Covers (adj : Adjacency) (ns : List Text) (s t : Collect) : Type 0 where
  pub grows : (x : Text) → s.visited x ≡ true → t.visited x ≡ true
  pub all : (n : Text) → In n ns → t.visited n ≡ true
  pub closed :
      (x : Text)
      → t.visited x ≡ true
      → (s.visited x ≡ true) ⊎ ((y : Text) → In y (neighbors adj x) → t.visited y ≡ true)

abbrev pub IsGoodCollect : Adjacency → Text → List Text → Collect → Option Collect → Type 0
IsGoodCollect adj start ns s none = ⊥
IsGoodCollect adj start ns s (some t) = IsSound adj start t × Covers adj ns s t

pub record IsReady (adj : Adjacency) (start : Text) (fuel : ℕ) (n : Text) (s : Collect)
    : Type 0 where
  pub fresh : s.visited n ≡ false
  pub sound : IsSound adj start s
  pub from_start : (n ≡ start) ⊎ Inherits adj start n
  pub known : In n (roles adj)
  pub fuelled : unseen (roles adj) s.visited < fuel

abbrev pub Searches : Adjacency → Text → ℕ → (Text → Collect → Option Collect) → Type 0
Searches adj start fuel go =
    (n : Text) (s : Collect)
    → IsReady adj start fuel n s
    → IsGoodCollect adj start (n ∷ []) s (go n s)

Covers-refl : (adj : Adjacency) (s : Collect) → Covers adj [] s s
Covers-refl adj s = record { grows = λ x h. h; all = λ n m. absurd m; closed = λ x h. inl h }

-- A visited neighbor, and what the rest of the loop covers.
Covers-cons :
    (adj : Adjacency) (n : Text) (ns : List Text) (s d t : Collect)
    → Covers adj [] s d
    → d.visited n ≡ true
    → Covers adj ns d t
    → Covers adj (n ∷ ns) s t
Covers-cons adj n ns s d t p v q = record {
  grows = λ x h. q.grows x (p.grows x h);
  all = λ m. elim [ inl e ↦ rw e (q.grows n v) | inr i ↦ q.all m i ];
  closed = λ x h. elim (q.closed x h) [
    | inr all ↦ inr all
    | inl old ↦ elim (p.closed x old) [
      | inl older ↦ inl older
      | inr all ↦ inr (λ y e. q.grows y (all y e))
    ]
  ];
}

Covers-nil :
    (adj : Adjacency) (ns : List Text) (s t : Collect) → Covers adj ns s t → Covers adj [] s t
Covers-nil adj ns s t p = record { grows = p.grows; all = λ n m. absurd m; closed = p.closed }

good_cons :
    (adj : Adjacency) (start n : Text) (ns : List Text) (s d : Collect) (o : Option Collect)
    → Covers adj [] s d
    → d.visited n ≡ true
    → IsGoodCollect adj start ns d o
    → IsGoodCollect adj start (n ∷ ns) s o
good_cons adj start n ns s d none p v g = g
good_cons adj start n ns s d (some t) p v g = (g.0, Covers-cons adj n ns s d t p v g.1)

unseen-Covers :
    (adj : Adjacency) (ns : List Text) (s t : Collect) (fuel : ℕ)
    → Covers adj ns s t
    → unseen (roles adj) s.visited < fuel
    → unseen (roles adj) t.visited < fuel
unseen-Covers adj ns s t fuel k u =
    omega (arith, unseen_mono (roles adj) s.visited t.visited k.grows)

module _ (adj : Adjacency) (start : Text) (fuel : ℕ) (go : Text → Collect → Option Collect) where
  collect_neighbor :
      (n : Text) (ns : List Text) (s : Collect) (b : Bool)
      → s.visited n ≡ b
      → Searches adj start fuel go
      → In n (roles adj)
      → (n ≡ start) ⊎ Inherits adj start n
      → IsSound adj start s
      → unseen (roles adj) s.visited < fuel
      → ((d : Collect)
          → IsSound adj start d
          → unseen (roles adj) d.visited < fuel
          → IsGoodCollect adj start ns d (collect_all go ns d))
      → IsGoodCollect adj start (n ∷ ns) s (collect_all go (n ∷ ns) s)
  unfolding collect_all
  collect_neighbor n ns s true e ih m p h u rest =
      rw (e, collect_all)
        (good_cons adj start n ns s s (collect_all go ns s) (Covers-refl adj s) e (rest s h u))
  collect_neighbor n ns s false e ih m p h u rest =
      rw (e, collect_all)
        (after (go n s)
          (ih n s (record { fresh = e; sound = h; from_start = p; known = m; fuelled = u })))
    where
      after :
          (o : Option Collect)
          → IsGoodCollect adj start (n ∷ []) s o
          → IsGoodCollect adj start
              (n ∷ ns)
              s
              (elim o [ none ↦ none | some d ↦ collect_all go ns d ])
      after none g = g
      after (some d) g =
          good_cons adj start n ns s d (collect_all go ns d) (Covers-nil adj (n ∷ []) s d g.1)
            (g.1.all n (inl refl)) (rest d g.0 (unseen-Covers adj (n ∷ []) s d fuel g.1 u))

  pub collect_all_lem :
      (ns : List Text) (s : Collect)
      → Searches adj start fuel go
      → ((n : Text) → In n ns → In n (roles adj) × ((n ≡ start) ⊎ Inherits adj start n))
      → IsSound adj start s
      → unseen (roles adj) s.visited < fuel
      → IsGoodCollect adj start ns s (collect_all go ns s)
  unfolding collect_all
  collect_all_lem [] s ih m h u = (h, Covers-refl adj s)
  collect_all_lem (n ∷ ns) s ih m h u =
      collect_neighbor n ns s (s.visited n) refl ih (m n (inl refl)).0 (m n (inl refl)).1 h u
        (λ d t k. collect_all_lem ns d ih (λ x i. m x (inr i)) t k)
