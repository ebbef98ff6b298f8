-- ===== src/Dag.antt =====
-- The role hierarchy of internal/engine/dag.go. A Go map is an association list with one entry for
-- a key, whose order stands for the order in which `range` visits the map; its visited maps are
-- functions. The recursion of both searches takes fuel, one more than the number of roles.
pub mod Graph
pub mod Coloring
pub mod Cycles
pub mod Coverage
pub mod Closure
pub mod Lookup
pub mod Add
use standalone_policy_engine.Base.{
  ℕ, zero, suc, ◌+◌, Bool, true, false, Option, none, some, List, [], ◌∷◌, ◌++◌, length, map,
  flat_map, if◌then◌else◌,
}
use standalone_policy_engine.Base.Text.{Text, text_eq}

abbrev pub Adjacency : Type 0
Adjacency = List (Text × List Text)

-- adj[k], nil where there is no entry
unfoldable pub neighbors : Adjacency → Text → List Text
neighbors [] k = []
neighbors ((j, v) ∷ m) k = let rest = neighbors m k in if text_eq j k then v else rest

-- adj[k] = append(adj[k], v)
unfoldable pub add_edge : Text → Text → Adjacency → Adjacency
add_edge k v [] = (k, v ∷ []) ∷ []
add_edge k v ((j, w) ∷ m) =
    let rest = add_edge k v m in if text_eq j k then (j, w ++ v ∷ []) ∷ m else (j, w) ∷ rest

-- for node := range adj
unfoldable pub keys : Adjacency → List Text
keys [] = []
keys ((j, v) ∷ m) = j ∷ keys m

-- Every name that the map mentions.
unfoldable pub roles : Adjacency → List Text
roles [] = []
roles ((j, v) ∷ m) = j ∷ (v ++ roles m)

pub data Color : Type 0 where
  white gray black : Color

abbrev pub Colors : Type 0
Colors = Text → Color

-- visited[k] = c
unfoldable pub paint : Text → Color → Colors → Colors
paint k c colors x = if text_eq k x then c else colors x

-- What a search of hasCycle ends with.
pub data Outcome : Type 0 where
  back_edge : Outcome
  finished : Colors → Outcome
  out_of_fuel : Outcome

-- `if dfs(n) { return true }` before the rest of a loop
unfoldable pub and_then : Outcome → (Colors → Outcome) → Outcome
and_then back_edge rest = back_edge
and_then out_of_fuel rest = out_of_fuel
and_then (finished after) rest = rest after

-- The loop over the neighbors of one node; `search` is the recursive call.
unfoldable pub visit_all : (Text → Colors → Outcome) → List Text → Colors → Outcome
visit_all search [] colors = finished colors
visit_all search (n ∷ ns) colors = elim (colors n) [
  | gray ↦ back_edge
  | white ↦ and_then (search n colors) (λ after. visit_all search ns after)
  | black ↦ visit_all search ns colors
]

-- visited[node] = 2, once the loop has run through
unfoldable pub close_node : Text → Outcome → Outcome
close_node node back_edge = back_edge
close_node node out_of_fuel = out_of_fuel
close_node node (finished colors) = finished (paint node black colors)

unfoldable pub dfs : ℕ → Adjacency → Text → Colors → Outcome
dfs zero adj node colors = out_of_fuel
dfs (suc fuel) adj node colors =
    close_node node (visit_all (dfs fuel adj) (neighbors adj node) (paint node gray colors))

-- `for node := range adj { if visited[node] == 0 { … } }`
unfoldable pub visit_roots : (Text → Colors → Outcome) → List Text → Colors → Outcome
visit_roots search [] colors = finished colors
visit_roots search (n ∷ ns) colors = elim (colors n) [
  | white ↦ and_then (search n colors) (λ after. visit_roots search ns after)
  | gray ↦ visit_roots search ns colors
  | black ↦ visit_roots search ns colors
]

unfoldable pub search_cycles : Adjacency → Outcome
search_cycles adj = visit_roots (dfs (suc (length (roles adj))) adj) (keys adj) (λ x. white)

unfoldable pub has_cycle : Adjacency → Bool
has_cycle adj = elim (search_cycles adj) [ finished c ↦ false | _ ↦ true ]

abbrev pub Visited : Type 0
Visited = Text → Bool

-- dfsCollect's state: its visited map, and the keys put into transitiveClosure[startNode].
pub record Collect : Type 0 where
  pub visited : Visited
  pub closure : List Text

unfoldable pub mark : Text → Visited → Visited
mark k visited x = if text_eq k x then true else visited x

unfoldable pub enter : Text → Text → Collect → Collect
enter start current s = record {
  visited = mark current s.visited;
  closure = if text_eq start current then s.closure else s.closure ++ current ∷ [];
}

-- The loop over the neighbors; `none` is fuel that ran out.
unfoldable pub collect_all :
    (Text → Collect → Option Collect) → List Text → Collect → Option Collect
collect_all go [] s = some s
collect_all go (n ∷ ns) s = elim (s.visited n) [
  | true ↦ collect_all go ns s
  | false ↦ elim (go n s) [ none ↦ none | some after ↦ collect_all go ns after ]
]

unfoldable pub dfs_collect : ℕ → Adjacency → Text → Text → Collect → Option Collect
dfs_collect zero adj start current s = none
dfs_collect (suc fuel) adj start current s =
    collect_all (dfs_collect fuel adj start) (neighbors adj current) (enter start current s)

unfoldable pub closure_of : Adjacency → Text → List Text
closure_of adj start =
    elim (dfs_collect (suc (length (roles adj))) adj start start
      (record { visited = λ x. false; closure = [] })) [ none ↦ [] | some s ↦ s.closure ]

pub record RoleDag : Type 0 where
  pub adj : Adjacency
  pub transitive_closure : List (Text × List Text)
  pub inherited_roles : List (Text × List Text)

unfoldable pub new_role_dag : RoleDag
new_role_dag = record { adj = []; transitive_closure = []; inherited_roles = [] }

unfoldable pub rebuild_transitive_closure : Adjacency → RoleDag
rebuild_transitive_closure adj = record {
  adj = adj;
  transitive_closure = map (λ k. (k, closure_of adj k)) (keys adj);
  inherited_roles = map (λ k. (k, k ∷ closure_of adj k)) (keys adj);
}

pub data DagError : Type 0 where
  self_inheritance cycle_found : DagError

pub data AddResult : Type 0 where
  added : RoleDag → AddResult
  rejected : DagError → AddResult

unfoldable pub add_inheritance : RoleDag → Text → Text → AddResult
add_inheritance g parent child =
    if text_eq parent child
    then rejected self_inheritance
    else if has_cycle (add_edge parent child g.adj)
    then rejected cycle_found
    else added (rebuild_transitive_closure (add_edge parent child g.adj))

-- A map lookup with its `exists`.
unfoldable pub find_entry {ℓ} : {A : Type ℓ} → List (Text × A) → Text → Option A
find_entry [] k = none
find_entry ((j, v) ∷ m) k = let rest = find_entry m k in if text_eq j k then some v else rest

unfoldable pub member : Text → List Text → Bool
member k [] = false
member k (x ∷ xs) = let rest = member k xs in if text_eq k x then true else rest

-- The receiver of these three may be nil.
unfoldable pub is_descendant : Option RoleDag → Text → Text → Bool
is_descendant g parent child = if text_eq parent child then true else elim g [
  | none ↦ false
  | some d ↦ elim (find_entry d.transitive_closure parent) [
    | none ↦ false
    | some ancestors ↦ member child ancestors
  ]
]

unfoldable pub get_inherited_roles : Option RoleDag → Text → List Text
get_inherited_roles none role = role ∷ []
get_inherited_roles (some d) role = elim (find_entry d.inherited_roles role) [
  | none ↦ role ∷ []
  | some roles ↦ roles
]
