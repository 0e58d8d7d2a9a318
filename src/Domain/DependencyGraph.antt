-- ===== src/Domain/DependencyGraph.antt =====
-- app/domain/dependency_graph.py: reachability over dependency edges.
pub mod Adjacency
pub mod Search
pub mod Acyclic
use lavs_core.Prelude.{
  ℕ, zero, suc, ◌+◌, Bool, true, false, ◌||◌, Option, none, some, List, [], ◌∷◌, ◌++◌, foldl,
  reverse, String, str_eq, any, length, if◌then◌else◌, Map, lookup, put,
}
use mathlib.Core.Option

-- An edge (from, to): `from` depends on `to`.
abbrev pub Edge : Type 0
Edge = String × String

-- `adjacency.setdefault(from_id, []).append(to_id)`
unfoldable pub append_to : Map (List String) → Edge → Map (List String)
append_to adjacency (from_id, to_id) =
    put from_id (Option.get_or (lookup from_id adjacency) [] ++ to_id ∷ []) adjacency

-- `_adjacency`
unfoldable pub adjacency : List Edge → Map (List String)
unfolding append_to
adjacency edges = foldl append_to [] edges

-- `node in seen`, the set as a list
abbrev pub contains : String → List String → Bool
contains node seen = any (λ s. str_eq s node) seen

-- `adjacency.get(node, [])`
abbrev pub successors : Map (List String) → String → List String
successors adj node = Option.get_or (lookup node adj) []

-- The `while stack` loop. The top of the stack is the head of the list, so `extend` puts the new
-- nodes in front, the last one on top. `none` means that the fuel ran out.
unfoldable pub search_loop :
    Map (List String) → String → ℕ → List String → List String → Option Bool
search_loop adj target zero stack seen = none
search_loop adj target (suc fuel) [] seen = some false
search_loop adj target (suc fuel) (node ∷ stack) seen =
    let skip = search_loop adj target fuel stack seen in
    let expand =
      search_loop adj target fuel (reverse (successors adj node) ++ stack) (node ∷ seen) in
    if str_eq node target then some true else if contains node seen then skip else expand

-- Each round takes a node off the stack, and a node's successors are pushed once.
abbrev pub search_fuel : List Edge → ℕ
search_fuel edges = length edges + 2

-- `is_reachable`
unfoldable pub is_reachable : List Edge → String → String → Option Bool
unfolding adjacency search_loop
is_reachable edges start target =
    search_loop (adjacency edges) target (search_fuel edges) (start ∷ []) []

-- `would_create_cycle`
unfoldable pub would_create_cycle : List Edge → String → String → Option Bool
unfolding is_reachable
would_create_cycle edges from_id to_id = is_reachable edges to_id from_id
