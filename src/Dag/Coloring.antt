-- ===== src/Dag/Coloring.antt =====
-- Colorings of a search of hasCycle: what its finished nodes have shown, and what a call is given.
use standalone_policy_engine.Base.{
  ℕ, ◌<◌, ◌≡◌, refl, ◌⊎◌, inl, inr, Bool, true, false, List, [], ◌∷◌, In, arith,
}
use standalone_policy_engine.Base.Text.{Text, text_eq_iff}
use standalone_policy_engine.Dag.{
  Adjacency, neighbors, roles, white, gray, black, Colors, paint, Outcome, back_edge, finished,
  out_of_fuel, and_then,
}
use standalone_policy_engine.Dag.Graph.{Inherits, direct, via, Inherits-snoc, unseen, unseen_mono}

abbrev pub painted : Colors → Text → Bool
painted c x = elim (c x) [ white ↦ false | _ ↦ true ]

-- Of the finished nodes: all that they inherit is finished, and none inherits itself.
pub record IsSettled (adj : Adjacency) (c : Colors) : Type 0 where
  pub closed : (x y : Text) → c x ≡ black → In y (neighbors adj x) → c y ≡ black
  pub acyclic : (x : Text) → c x ≡ black → ¬ Inherits adj x x

pub record Keeps (c d : Colors) : Type 0 where
  pub blacks : (x : Text) → c x ≡ black → d x ≡ black
  pub grays : (x : Text) → c x ≡ gray → d x ≡ gray
  pub no_new_grays : (x : Text) → d x ≡ gray → c x ≡ gray

abbrev pub HasCycle : Adjacency → Type 0
HasCycle adj = (x : Text) × Inherits adj x x

abbrev pub IsGoodVisit : Adjacency → Colors → List Text → Outcome → Type 0
IsGoodVisit adj c ns back_edge = HasCycle adj
IsGoodVisit adj c ns (finished d) =
    IsSettled adj d × Keeps c d × ((n : Text) → In n ns → d n ≡ black)
IsGoodVisit adj c ns out_of_fuel = ⊥

pub Keeps-refl : (c : Colors) → Keeps c c
Keeps-refl c = record { blacks = λ x h. h; grays = λ x h. h; no_new_grays = λ x h. h }

Keeps-trans : (c d e : Colors) → Keeps c d → Keeps d e → Keeps c e
Keeps-trans c d e p q = record {
  blacks = λ x h. q.blacks x (p.blacks x h);
  grays = λ x h. q.grays x (p.grays x h);
  no_new_grays = λ x h. p.no_new_grays x (q.no_new_grays x h);
}

Keeps-painted : (c d : Colors) → Keeps c d → (x : Text) → painted c x ≡ true → painted d x ≡ true
Keeps-painted c d k x h = ground (arith, k.blacks x, k.grays x)

pub black_closed :
    (adj : Adjacency) (c : Colors) (x y : Text)
    → IsSettled adj c
    → c x ≡ black
    → Inherits adj x y
    → c y ≡ black
black_closed adj c x y s h (direct e) = s.closed x y h e
black_closed adj c x y s h (via z e p) = black_closed adj c z y s (s.closed x z h e) p

pub IsSettled-gray :
    (adj : Adjacency) (c : Colors) (k : Text)
    → c k ≡ white
    → IsSettled adj c
    → IsSettled adj (paint k gray c)
unfolding paint
IsSettled-gray adj c k w s = record {
  closed = λ x y h e. ground (arith, s.closed x y, text_eq_iff k x, text_eq_iff k y);
  acyclic = λ x h. s.acyclic x (ground (arith, text_eq_iff k x));
}

-- What a call of `dfs` is given.
pub record IsReady (adj : Adjacency) (fuel : ℕ) (n : Text) (c : Colors) : Type 0 where
  pub fresh : c n ≡ white
  pub settled : IsSettled adj c
  pub on_path : (g : Text) → c g ≡ gray → Inherits adj g n
  pub known : In n (roles adj)
  pub fuelled : unseen (roles adj) (painted c) < fuel

abbrev pub Searches : Adjacency → ℕ → (Text → Colors → Outcome) → Type 0
Searches adj fuel search =
    (n : Text) (c : Colors) → IsReady adj fuel n c → IsGoodVisit adj c (n ∷ []) (search n c)

-- A black neighbor needs no visit.
pub already_black :
    (adj : Adjacency) (c d : Colors) (n : Text) (ns : List Text) (o : Outcome)
    → Keeps c d
    → d n ≡ black
    → IsGoodVisit adj d ns o
    → IsGoodVisit adj c (n ∷ ns) o
already_black adj c d n ns back_edge k e g = g
already_black adj c d n ns out_of_fuel k e g = g
already_black adj c d n ns (finished f) k e g =
    (g.0, Keeps-trans c d f k g.1, λ m. elim [ inl p ↦ rw p (g.1.blacks n e) | inr q ↦ g.2 m q ])

pub after_neighbor :
    (adj : Adjacency) (c : Colors) (n : Text) (ns : List Text) (o : Outcome)
    (rest : Colors → Outcome)
    → IsGoodVisit adj c (n ∷ []) o
    → ((d : Colors) → IsSettled adj d → Keeps c d → IsGoodVisit adj d ns (rest d))
    → IsGoodVisit adj c (n ∷ ns) (and_then o rest)
unfolding and_then
after_neighbor adj c n ns back_edge rest g go = g
after_neighbor adj c n ns out_of_fuel rest g go = g
after_neighbor adj c n ns (finished d) rest g go =
    already_black adj c d n ns (rest d) g.1 (g.2 n (inl refl)) (go d g.0 g.1)

-- The gray nodes of a loop over the neighbors of `node` lead to it.
abbrev pub LeadsTo : Adjacency → Colors → Text → Type 0
LeadsTo adj c node = (g : Text) → c g ≡ gray → (g ≡ node) ⊎ Inherits adj g node

pub LeadsTo-neighbor :
    (adj : Adjacency) (c : Colors) (node n : Text)
    → LeadsTo adj c node
    → In n (neighbors adj node)
    → (g : Text) → c g ≡ gray
    → Inherits adj g n
LeadsTo-neighbor adj c node n p edge g h = elim (p g h) [
  | inl e ↦ rw e (direct edge)
  | inr q ↦ Inherits-snoc adj g node n q edge
]

pub unseen-Keeps :
    (adj : Adjacency) (c d : Colors) (fuel : ℕ)
    → Keeps c d
    → unseen (roles adj) (painted c) < fuel
    → unseen (roles adj) (painted d) < fuel
unseen-Keeps adj c d fuel k u =
    omega (arith, unseen_mono (roles adj) (painted c) (painted d) (Keeps-painted c d k))
