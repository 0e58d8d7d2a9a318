-- ===== src/Queries/Dependencies.antt =====
-- app/queries/component_dependencies: the edges of a product's graph. The new edge's identifier and
-- the clock's reading are arguments.
pub mod Checks
pub mod Edges
pub mod Impact
use lavs_core.Prelude.{
  ℕ, Bool, true, false, not, ◌&&◌, ◌||◌, Option, none, some, List, [], ◌∷◌, ◌++◌, String, str_eq,
  any, select, ltb, ◌==◌, if◌then◌else◌, Result, ok, err, sort_by, map, foldl, Map, put, lookup,
}
use mathlib.Core.Option
use lavs_core.Domain.BumpLevel.{BumpLevel}
use lavs_core.Domain.DependencyGraph.{Edge, would_create_cycle}
use lavs_core.Domain.BumpPropagation.{effective_levels}
use lavs_core.Events.{DomainEvent, dependency_added, dependency_removed}
use lavs_core.Events.EventBus.{publish}
use lavs_core.Database.Tables.{
  Product, Component, Dependency, Body, dependency_body, removed_body, Database, World, Error,
  not_found, conflict, key_error, index_error,
}
use lavs_core.Database.Statements.{
  Action, ◌>>=◌, ◌>>◌, pure, raise, gets, modify, insert, first_or, from_option, emit, str_ltb,
  continue,
}

-- `_SELECT_PRODUCT`
abbrev pub products_with_id : String → Database → List Product
products_with_id id db = select (λ p. str_eq p.id id) db.products

-- `_SELECT_COMPONENT` of adding an edge
abbrev pub components_with_id : String → Database → List Component
components_with_id id db = select (λ c. str_eq c.id id) db.components

-- `raise ConflictError` under a condition
abbrev pub refuse_if : Bool → Action (Unit {0})
refuse_if refused w = if refused then (err conflict, w) else (ok tt, w)

-- `_assert_component`
unfoldable pub assert_component : String → String → Action (Unit {0})
assert_component product_id component_id = do
  components ← gets (components_with_id component_id)
  component ← first_or not_found components
  refuse_if (not (str_eq component.product_id product_id))

-- The condition of `_SELECT_EDGE`.
abbrev pub is_edge : String → String → String → Dependency → Bool
is_edge product_id from_id to_id e =
    str_eq e.product_id product_id
    && (str_eq e.from_component_id from_id && str_eq e.to_component_id to_id)

-- `_SELECT_EDGES`
abbrev pub edge_of : Dependency → Edge
edge_of e = (e.from_component_id, e.to_component_id)

abbrev pub edges_of : String → Database → List Edge
edges_of product_id db = map edge_of (select (λ e. str_eq e.product_id product_id) db.dependencies)

-- The keys of `component_dependencies` and its references.
abbrev pub may_insert_dependency : Dependency → Database → Bool
may_insert_dependency e db =
    not (any (λ d. str_eq d.id e.id) db.dependencies)
    && (not (any (is_edge e.product_id e.from_component_id e.to_component_id) db.dependencies)
        && (any (λ p. str_eq p.id e.product_id) db.products
            && (any (λ c. str_eq c.id e.from_component_id) db.components
                && any (λ c. str_eq c.id e.to_component_id) db.components)))

abbrev pub insert_dependency : Dependency → Database → Database
insert_dependency e db = record db { dependencies = db.dependencies ++ e ∷ [] }

abbrev pub dependencies_with_id : String → Database → List Dependency
dependencies_with_id id db = select (λ e. str_eq e.id id) db.dependencies

-- What `apply` checks before it inserts; `key_error` would be a search that does not end.
unfoldable pub check_dependency : Dependency → Action (Unit {0})
unfolding assert_component
check_dependency row = do
  products ← gets (products_with_id row.product_id)
  first_or not_found products
  assert_component row.product_id row.from_component_id
  assert_component row.product_id row.to_component_id
  refuse_if (str_eq row.from_component_id row.to_component_id)
  duplicate ←
      gets (λ db.
        any (is_edge row.product_id row.from_component_id row.to_component_id) db.dependencies)
  refuse_if duplicate
  edges ← gets (edges_of row.product_id)
  cycle ← from_option key_error (would_create_cycle edges row.from_component_id row.to_component_id)
  refuse_if cycle

-- The insertion, the row read back and the event; the `assert` on the row is an index error here.
unfoldable pub store_dependency : Dependency → Action Dependency
store_dependency row = do
  insert (may_insert_dependency row) (insert_dependency row)
  rows ← gets (dependencies_with_id row.id)
  dependency ← first_or index_error rows
  emit (record {
    event_type = dependency_added;
    product_id = row.product_id;
    body = dependency_body dependency;
  })
  pure dependency

-- `AddDependencyQuery.apply`
unfoldable pub add_dependency : Dependency → Action Dependency
unfolding check_dependency store_dependency
add_dependency row = check_dependency row >> store_dependency row

-- `RemoveDependencyQuery.apply`
unfoldable pub remove_dependency : String → String → String → Action (Unit {0})
remove_dependency product_id from_id to_id = do
  rows ← gets (λ db. select (is_edge product_id from_id to_id) db.dependencies)
  row ← first_or not_found rows
  modify (λ db. record db { dependencies = select (λ e. not (str_eq e.id row.id)) db.dependencies })
  emit (record {
    event_type = dependency_removed;
    product_id = product_id;
    body = removed_body row.id product_id from_id to_id;
  })

-- `SELECT id FROM components WHERE product_id = ? ORDER BY id`
abbrev pub component_ids : String → Database → List String
component_ids product_id db =
    map (λ c. c.id)
      (sort_by (λ c d. str_ltb c.id d.id)
        (select (λ c. str_eq c.product_id product_id) db.components))

-- `dict.fromkeys(component_ids, BumpLevel.NONE)`
abbrev pub unchanged : List String → Map BumpLevel
unchanged ids = foldl (λ own c. put c BumpLevel.none own) [] ids

-- `own_levels`
abbrev pub hypothetical : String → List String → Map BumpLevel
hypothetical component_id ids = put component_id BumpLevel.major (unchanged ids)

-- One round of the comprehension: its element, or nothing.
unfoldable pub impacted_here : String → Map BumpLevel → String → Option (List (String × BumpLevel))
impacted_here changed effective c =
    if str_eq c changed then some [] else elim (lookup c effective) [
      | none ↦ none
      | some BumpLevel.none ↦ some []
      | some level ↦ some ((c, level) ∷ [])
    ]

-- `impacted`; `none` is a KeyError.
unfoldable pub impacted : String → Map BumpLevel → List String → Option (List (String × BumpLevel))
unfolding impacted_here
impacted changed effective [] = some []
impacted changed effective (c ∷ cs) = elim (impacted_here changed effective c) [
  | none ↦ none
  | some here ↦ Option.map (λ rest. here ++ rest) (impacted changed effective cs)
]

-- `ImpactQuery.apply`; `key_error` would be a walk that does not end or a component without level.
unfoldable pub impact : String → String → Action (List (String × BumpLevel))
unfolding sort_by impacted
impact product_id component_id = do
  products ← gets (products_with_id product_id)
  first_or not_found products
  components ←
      gets (λ db.
        select (λ c. str_eq c.id component_id && str_eq c.product_id product_id) db.components)
  first_or not_found components
  ids ← gets (component_ids product_id)
  edges ← gets (edges_of product_id)
  effective ← from_option key_error (effective_levels (hypothetical component_id ids) edges)
  from_option key_error (impacted component_id effective ids)

-- `GraphQuery.apply`: nodes by name, edges by time, then by identifier.
unfoldable pub graph : String → Database → List Component × List Dependency
unfolding sort_by
graph product_id db = (
  sort_by (λ c d. str_ltb c.name d.name || (str_eq c.name d.name && str_ltb c.id d.id))
      (select (λ c. str_eq c.product_id product_id) db.components),
  sort_by
      (λ e f. ltb e.created_at f.created_at || (e.created_at == f.created_at && str_ltb e.id f.id))
      (select (λ e. str_eq e.product_id product_id) db.dependencies),
)
