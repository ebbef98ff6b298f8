-- ===== src/Examples/Roles.antt =====
-- The results on the role hierarchy, at small hierarchies.
use standalone_policy_engine.Base.{◌≡◌, ◌≢◌, ◌↔◌, ◌⊎◌, true, some, [], ◌∷◌, In}
use standalone_policy_engine.Base.Text.{Text, txt}
use standalone_policy_engine.Dag.{
  Adjacency, has_cycle, RoleDag, new_role_dag, add_edge, add_inheritance, rejected, added,
  self_inheritance, cycle_found, rebuild_transitive_closure, is_descendant, get_inherited_roles,
}
use standalone_policy_engine.Dag.Graph.{Inherits}
use standalone_policy_engine.Dag.Cycles.{has_cycle_iff}
use standalone_policy_engine.Dag.Add.{IsValid, add_inheritance_lem, new_role_dag-IsValid}
use standalone_policy_engine.Dag.Lookup.{is_descendant_iff, In-get_inherited_roles}

abbrev a : Text
a = txt "a"

abbrev b : Text
b = txt "b"

abbrev c : Text
c = txt "c"

-- a inherits b, b inherits c, and c inherits a.
abbrev ring : Adjacency
ring = (a, b ∷ []) ∷ (b, c ∷ []) ∷ (c, a ∷ []) ∷ []

abbrev chain : Adjacency
chain = (a, b ∷ []) ∷ (b, c ∷ []) ∷ []

has_cycle_iff_example : (has_cycle ring ≡ true) ↔ ((x : Text) × Inherits ring x x)
has_cycle_iff_example = has_cycle_iff ring

add_inheritance_lem_example :
    (a ≡ b → add_inheritance new_role_dag a b ≡ rejected self_inheritance)
    × (a ≢ b
        → Inherits new_role_dag.adj b a
        → add_inheritance new_role_dag a b ≡ rejected cycle_found)
    × (a ≢ b
        → ¬ Inherits new_role_dag.adj b a
        → (h : RoleDag) × (add_inheritance new_role_dag a b ≡ added h)
          × IsValid h
          × (h.adj ≡ add_edge a b new_role_dag.adj))
add_inheritance_lem_example = add_inheritance_lem new_role_dag a b new_role_dag-IsValid

is_descendant_iff_example :
    (is_descendant (some (rebuild_transitive_closure chain)) a c ≡ true)
    ↔ ((a ≡ c) ⊎ Inherits chain a c)
is_descendant_iff_example = is_descendant_iff chain a c

In-get_inherited_roles_example :
    In c (get_inherited_roles (some (rebuild_transitive_closure chain)) a)
    ↔ ((c ≡ a) ⊎ ((a ≢ c) × Inherits chain a c))
In-get_inherited_roles_example = In-get_inherited_roles chain a c
