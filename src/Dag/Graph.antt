-- ===== src/Dag/Graph.antt =====
-- The inheritance relation that dag.go's map of direct edges spans, and a count of names not yet
-- visited, by which both searches end.
use standalone_policy_engine.Base.{
  ℕ, suc, ◌≤◌, ◌<◌, ◌≡◌, sym, ap, ◌∙◌, inl, inr, Bool, true, false, List, [], ◌∷◌, In,
  In-append_left, In-append_right, length, Bool-cases, if◌then◌else◌, arith,
}
use standalone_policy_engine.Base.Text.{Text, text_eq, text_eq_iff}
use standalone_policy_engine.Dag.{Adjacency, neighbors, roles, keys}

-- `x` inherits `y` directly or through other roles.
pub data Inherits (adj : Adjacency) : Text → Text → Type 0 where
  direct : {x y : Text} → In y (neighbors adj x) → Inherits adj x y
  via : {x y : Text} (z : Text) → In z (neighbors adj x) → Inherits adj z y → Inherits adj x y

pub Inherits-snoc :
    (adj : Adjacency) (x y z : Text) → Inherits adj x y → In z (neighbors adj y) → Inherits adj x z
Inherits-snoc adj x y z (direct e) f = via y e (direct f)
Inherits-snoc adj x y z (via w e p) f = via w e (Inherits-snoc adj w y z p f)

pub neighbors-In-roles : (adj : Adjacency) (x y : Text) → In y (neighbors adj x) → In y (roles adj)
unfolding neighbors roles
neighbors-In-roles [] x y m = m
neighbors-In-roles ((j, v) ∷ adj) x y m = elim (Bool-cases (text_eq j x)) [
  | inl e ↦ inr (In-append_left y v (roles adj) (rw e at m))
  | inr n ↦ inr (In-append_right y v (roles adj) (neighbors-In-roles adj x y (rw n at m)))
]

pub keys-In-roles : (adj : Adjacency) (x : Text) → In x (keys adj) → In x (roles adj)
unfolding keys roles
keys-In-roles [] x m = m
keys-In-roles ((j, v) ∷ adj) x (inl e) = inl e
keys-In-roles ((j, v) ∷ adj) x (inr m) =
    inr (In-append_right x v (roles adj) (keys-In-roles adj x m))

-- Only the keys of the map have neighbors.
pub neighbors-In-keys : (adj : Adjacency) (x y : Text) → In y (neighbors adj x) → In x (keys adj)
unfolding neighbors keys
neighbors-In-keys [] x y m = absurd m
neighbors-In-keys ((j, v) ∷ adj) x y m = elim (Bool-cases (text_eq j x)) [
  | inl e ↦ inl (sym ((text_eq_iff j x).0 e))
  | inr n ↦ inr (neighbors-In-keys adj x y (rw n at m))
]

-- How many entries of the list have not been seen.
abbrev pub unseen : List Text → (Text → Bool) → ℕ
unseen [] seen = 0
unseen (u ∷ us) seen = if seen u then unseen us seen else suc (unseen us seen)

pub unseen_mono :
    (us : List Text) (seen later : Text → Bool)
    → ((x : Text) → seen x ≡ true → later x ≡ true)
    → unseen us later ≤ unseen us seen
unseen_mono [] seen later h = omega arith
unseen_mono (u ∷ us) seen later h = ground (arith, h u, unseen_mono us seen later h)

pub unseen-lt :
    (us : List Text) (seen later : Text → Bool) (k : Text)
    → ((x : Text) → seen x ≡ true → later x ≡ true)
    → In k us
    → seen k ≡ false
    → later k ≡ true
    → unseen us later < unseen us seen
unseen-lt [] seen later k h m e f = absurd m
unseen-lt (u ∷ us) seen later k h (inl p) e f =
    let e' = ap seen (sym p) ∙ e in
    let f' = ap later (sym p) ∙ f in rw (e', f') (omega (arith, unseen_mono us seen later h))
unseen-lt (u ∷ us) seen later k h (inr m) e f =
    ground (arith, h u, unseen-lt us seen later k h m e f)

pub unseen-le-length : (us : List Text) (seen : Text → Bool) → unseen us seen ≤ length us
unseen-le-length [] seen = omega arith
unseen-le-length (u ∷ us) seen = ground (arith, unseen-le-length us seen)
