-- ===== src/Domain/DependencyGraph/Adjacency.antt =====
-- `_adjacency` maps a node to the targets of its edges, in the order of the edges.
use lavs_core.Prelude.{
  ◌≡◌, sym, List, [], ◌∷◌, ◌++◌, foldl, String, str_eq, eq_iff, arith, if◌then◌else◌, Map, lookup,
  lookup-put,
}
use mathlib.Core.List.{append_assoc, append-nil}
use mathlib.Core.Option
use lavs_core.Domain.DependencyGraph.{Edge, append_to, adjacency, successors}

-- The targets of the edges out of a node.
abbrev pub targets : List Edge → String → List String
targets [] u = []
targets ((a, b) ∷ es) u = if str_eq a u then b ∷ targets es u else targets es u

successors-append_to :
    (adj : Map (List String)) (a b u : String)
    → successors (append_to adj (a, b)) u ≡ successors adj u ++ (if str_eq a u then b ∷ [] else [])
unfolding append_to
successors-append_to adj a b u = ground (
  arith,
  lookup-put a u (Option.get_or (lookup a adj) [] ++ b ∷ []) adj,
  eq_iff a u,
  append-nil (successors adj u),
)

successors-foldl :
    (adj : Map (List String)) (es : List Edge) (u : String)
    → successors (foldl append_to adj es) u ≡ successors adj u ++ targets es u
successors-foldl adj [] u = sym (append-nil (successors adj u))
successors-foldl adj ((a, b) ∷ es) u = ground (
  arith,
  successors-foldl (append_to adj (a, b)) es u,
  successors-append_to adj a b u,
  append_assoc (successors adj u) (b ∷ []) (targets es u),
  append-nil (successors adj u),
)

pub successors-adjacency :
    (es : List Edge) (u : String) → successors (adjacency es) u ≡ targets es u
unfolding adjacency lookup
successors-adjacency es u = successors-foldl [] es u
