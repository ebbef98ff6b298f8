-- ===== src/Dag/Lookup.antt =====
-- IsDescendant and GetInheritedRoles, read from the tables that rebuildTransitiveClosure fills.
use standalone_policy_engine.Base.{
  ◌≡◌, ◌≢◌, refl, sym, ap, ◌⊎◌, inl, inr, ◌↔◌, true, none, some, List, [], ◌∷◌, In, Bool-cases, map,
}
use standalone_policy_engine.Base.Text.{Text, text_eq, text_eq_iff, text_eq_ne}
use standalone_policy_engine.Dag.{
  Adjacency, keys, closure_of, rebuild_transitive_closure, find_entry, member, is_descendant,
  get_inherited_roles,
}
use standalone_policy_engine.Dag.Graph.{Inherits, direct, via, neighbors-In-keys}
use standalone_policy_engine.Dag.Closure.{In-closure_of}

pub member_iff : (k : Text) (xs : List Text) → (member k xs ≡ true) ↔ In k xs
unfolding member
member_iff k [] = (λ h. cc, λ m. absurd m)
member_iff k (x ∷ xs) = elim (Bool-cases (text_eq k x)) [
  | inl e ↦ (λ h. inl ((text_eq_iff k x).0 e), λ m. rw e)
  | inr e ↦ (
    λ h. inr ((member_iff k xs).0 (rw e at h)),
    elim [ inl q ↦ absurd (text_eq_ne k x e q) | inr m ↦ rw e ((member_iff k xs).1 m) ],
  )
]

module _ {A : Type 0} (f : Text → A) where
  abbrev table : List Text → List (Text × A)
  table ks = map (λ k. (k, f k)) ks

  find_entry-table : (ks : List Text) (k : Text) → In k ks → find_entry (table ks) k ≡ some (f k)
  unfolding find_entry
  find_entry-table [] k m = absurd m
  find_entry-table (j ∷ ks) k m = elim (Bool-cases (text_eq j k)) [
    | inl e ↦ rw e (ap (λ x. some (f x)) ((text_eq_iff j k).0 e))
    | inr e ↦
        rw e
          (elim m [ inl q ↦ absurd (text_eq_ne j k e (sym q)) | inr i ↦ find_entry-table ks k i ])
  ]

  -- A key has its entry, and any other name has none.
  find_entry-cases :
      (ks : List Text) (k : Text)
      → (In k ks × (find_entry (table ks) k ≡ some (f k)))
        ⊎ ((¬ In k ks) × (find_entry (table ks) k ≡ none))
  unfolding find_entry
  find_entry-cases [] k = inr (λ m. m, refl)
  find_entry-cases (j ∷ ks) k = elim (Bool-cases (text_eq j k)) [
    | inl e ↦
        inl (inl (sym ((text_eq_iff j k).0 e)), rw e (ap (λ x. some (f x)) ((text_eq_iff j k).0 e)))
    | inr e ↦ elim (find_entry-cases ks k) [
      | inl h ↦ inl (inr h.0, rw e h.1)
      | inr h ↦ inr (elim [ inl q ↦ text_eq_ne j k e (sym q) | inr i ↦ h.0 i ], rw e h.1)
    ]
  ]

Inherits-In-keys : (adj : Adjacency) (x y : Text) → Inherits adj x y → In x (keys adj)
Inherits-In-keys adj x y (direct e) = neighbors-In-keys adj x y e
Inherits-In-keys adj x y (via z e p) = neighbors-In-keys adj x z e

-- After a rebuild, IsDescendant holds exactly for a role itself and for the roles that it
-- inherits directly or through others.
pub is_descendant_iff :
    (adj : Adjacency) (parent child : Text)
    → (is_descendant (some (rebuild_transitive_closure adj)) parent child ≡ true)
      ↔ ((parent ≡ child) ⊎ Inherits adj parent child)
unfolding is_descendant rebuild_transitive_closure
is_descendant_iff adj parent child = elim (Bool-cases (text_eq parent child)) [
  | inl e ↦ (λ h. inl ((text_eq_iff parent child).0 e), λ h. rw e)
  | inr e ↦
      let n = text_eq_ne parent child e in
      elim (find_entry-cases (closure_of adj) (keys adj) parent) [
        | inl (m, q) ↦
            rw (e, q)
              (
                λ h. inr ((In-closure_of adj parent child m).0 ((member_iff child _).0 h)).1,
                elim [
                  | inl p ↦ absurd (n p)
                  | inr i ↦ (member_iff child _).1 ((In-closure_of adj parent child m).1 (n, i))
                ],
              )
        | inr (m, q) ↦
            rw (e, q)
              (
                λ h. cc,
                elim [
                  | inl p ↦ absurd (n p)
                  | inr i ↦ absurd (m (Inherits-In-keys adj parent child i))
                ],
              )
      ]
]

-- What GetInheritedRoles returns for a key of the map, and for any other name.
get_inherited_roles-cases :
    (adj : Adjacency) (role : Text)
    → (In role (keys adj)
        × (get_inherited_roles (some (rebuild_transitive_closure adj)) role
            ≡ role ∷ closure_of adj role))
      ⊎ ((¬ In role (keys adj))
          × (get_inherited_roles (some (rebuild_transitive_closure adj)) role ≡ role ∷ []))
unfolding get_inherited_roles rebuild_transitive_closure
get_inherited_roles-cases adj role =
    elim (find_entry-cases (λ k. k ∷ closure_of adj k) (keys adj) role) [
      | inl (m, q) ↦ inl (m, rw (q, get_inherited_roles))
      | inr (m, q) ↦ inr (m, rw (q, get_inherited_roles))
    ]

-- After a rebuild, GetInheritedRoles lists exactly the role itself and the roles that it inherits.
pub In-get_inherited_roles :
    (adj : Adjacency) (role x : Text)
    → In x (get_inherited_roles (some (rebuild_transitive_closure adj)) role)
      ↔ ((x ≡ role) ⊎ ((role ≢ x) × Inherits adj role x))
In-get_inherited_roles adj role x = elim (get_inherited_roles-cases adj role) [
  | inl (m, q) ↦ rw q (
    elim [ inl e ↦ inl e | inr i ↦ inr ((In-closure_of adj role x m).0 i) ],
    elim [ inl e ↦ inl e | inr p ↦ inr ((In-closure_of adj role x m).1 p) ],
  )
  | inr (m, q) ↦ rw q (
    elim [ inl e ↦ inl e | inr i ↦ absurd i ],
    elim [ inl e ↦ inl e | inr p ↦ absurd (m (Inherits-In-keys adj role x p.1)) ],
  )
]
