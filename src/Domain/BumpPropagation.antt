-- ===== src/Domain/BumpPropagation.antt =====
-- app/domain/bump_propagation.py: effective levels over the dependency graph, by a memoised
-- depth-first walk, and the product bump.
pub mod Dependencies
pub mod Induction
pub mod Levels
pub mod ProductBump
pub mod Reaches
use lavs_core.Prelude.{
  ℕ, zero, suc, Bool, true, false, not, Option, none, some, List, [], ◌∷◌, ◌++◌, foldl, map, String,
  str_eq, select, length, if◌then◌else◌, Map, lookup, put, keys, ◌+◌,
}
use mathlib.Core.Option
use lavs_core.Domain.BumpLevel.{BumpLevel, major, propagate, max_level}
use lavs_core.Domain.DependencyGraph.{Edge, contains}

-- `dependencies.setdefault(node, [])`
unfoldable pub setdefault : String → Map (List String) → Map (List String)
setdefault node deps = elim (lookup node deps) [ none ↦ put node [] deps | some _ ↦ deps ]

-- The body of the loop over the edges.
unfoldable pub add_edge : Map (List String) → Edge → Map (List String)
unfolding setdefault
add_edge deps (from_id, to_id) =
    let deps' = setdefault to_id (setdefault from_id deps) in
    put from_id (Option.get_or (lookup from_id deps') [] ++ to_id ∷ []) deps'

-- `{node: [] for node in own_levels}`
abbrev pub no_dependencies : Map BumpLevel → Map (List String)
no_dependencies [] = []
no_dependencies ((node, level) ∷ own) = (node, []) ∷ no_dependencies own

unfoldable pub dependencies : Map BumpLevel → List Edge → Map (List String)
unfolding add_edge
dependencies own_levels edges = foldl add_edge (no_dependencies own_levels) edges

-- `own_levels.get(node, BumpLevel.MAJOR)`
abbrev pub base_level : Map BumpLevel → String → BumpLevel
base_level own_levels node = Option.get_or (lookup node own_levels) major

-- `base`, over the nodes of `dependencies`
abbrev pub base_levels : Map BumpLevel → Map (List String) → Map BumpLevel
base_levels own_levels [] = []
base_levels own_levels ((node, ds) ∷ deps) =
    (node, base_level own_levels node) ∷ base_levels own_levels deps

-- What the closure `effective` mutates.
pub record Walk : Type 0 where
  pub memo : Map BumpLevel
  pub visiting : List String

-- `[propagate(effective(dependency)) for dependency in dependencies[node]]`
unfoldable pub contributions :
    (String → Walk → Option (BumpLevel × Walk))
    → List String
    → Walk
    → Option (List BumpLevel × Walk)
contributions effective [] w = some ([], w)
contributions effective (d ∷ ds) w = elim (effective d w) [
  | none ↦ none
  | some (level, w') ↦ elim (contributions effective ds w') [
    | none ↦ none
    | some (levels, w'') ↦ some (propagate level ∷ levels, w'')
  ]
]

-- `visiting.discard(node)`
abbrev pub discard : String → List String → List String
discard node visiting = select (λ s. not (str_eq s node)) visiting

-- `visiting.discard(node)`, `memo[node] = result`
unfoldable pub finish :
    String → Option BumpLevel → Option (List BumpLevel × Walk) → Option (BumpLevel × Walk)
finish node none r = none
finish node (some base) none = none
finish node (some base) (some (levels, w)) =
    let result = max_level (base ∷ levels) in
    some (result, record { memo = put node result w.memo; visiting = discard node w.visiting })

-- `effective`. `none` is a KeyError, or that the fuel ran out.
module _ (deps : Map (List String)) (base : Map BumpLevel) where
  unfoldable pub effective : ℕ → String → Walk → Option (BumpLevel × Walk)
  unfolding contributions finish
  effective zero node w = none
  effective (suc fuel) node w = elim (lookup node w.memo) [
    | some level ↦ some (level, w)
    | none ↦ elim (contains node w.visiting) [
      | true ↦ Option.map (λ level. (level, w)) (lookup node base)
      | false ↦ elim (lookup node deps) [
        | none ↦ none
        | some ds ↦
            finish node (lookup node base)
              (contributions (effective fuel) ds (record w { visiting = node ∷ w.visiting }))
      ]
    ]
  ]

  -- `{node: effective(node) for node in dependencies}`
  unfoldable pub effective_all : ℕ → List String → Walk → Option (Map BumpLevel)
  unfolding effective
  effective_all fuel [] w = some []
  effective_all fuel (node ∷ nodes) w = elim (effective fuel node w) [
    | none ↦ none
    | some (level, w') ↦ elim (effective_all fuel nodes w') [
      | none ↦ none
      | some result ↦ some ((node, level) ∷ result)
    ]
  ]

-- The depth of the recursion is at most the number of nodes, plus the call that finds a back edge.
unfoldable pub effective_levels : Map BumpLevel → List Edge → Option (Map BumpLevel)
unfolding dependencies effective_all
effective_levels own_levels edges =
    let deps = dependencies own_levels edges in
    effective_all deps (base_levels own_levels deps) (length (keys deps) + 1) (keys deps)
      (record { memo = []; visiting = [] })

-- `[effective[component] for component in own_levels]`
unfoldable pub levels_of : Map BumpLevel → List String → Option (List BumpLevel)
levels_of result [] = some []
levels_of result (c ∷ cs) = elim (lookup c result) [
  | none ↦ none
  | some level ↦ Option.map (λ levels. level ∷ levels) (levels_of result cs)
]

unfoldable pub derive_product_bump : Map BumpLevel → List Edge → Bool → Option BumpLevel
unfolding effective_levels levels_of
derive_product_bump own_levels edges removed_any = elim (effective_levels own_levels edges) [
  | none ↦ none
  | some effective ↦ elim (levels_of effective (keys own_levels)) [
    | none ↦ none
    | some levels ↦ some (max_level (if removed_any then levels ++ major ∷ [] else levels))
  ]
]
