-- ===== src/Queries/Bumps.antt =====
-- `_derive` and `_prior_manifest` of app/queries/releases/cut_release_query.py: the bump that a cut
-- derives from the active components and the last release.
use lavs_core.Prelude.{
  Bool, not, ◌&&◌, Option, none, some, List, [], ◌∷◌, ◌++◌, String, str_eq, any, select, foldl,
  sort_by, map, Map, put, lookup, keys,
}
use mathlib.Core.Option
use lavs_core.Domain.BumpLevel.{BumpLevel}
use lavs_core.Domain.ChangeClassifier.{VersionTuple, classify_change}
use lavs_core.Domain.BumpPropagation.{effective_levels, derive_product_bump}
use lavs_core.Database.Tables.{
  BumpPolicy, legacy, default, active, Component, Version, Release, ReleaseComponent, Rationale,
  Database,
}
use lavs_core.Database.Statements.{str_ltb, same_status}
use lavs_core.Queries.Dependencies.{edges_of}

-- A row of `_SELECT_ACTIVE_COMPONENTS`.
pub record ActiveRow : Type 0 where
  pub component_id : String
  pub name : String
  pub version : Version

-- The versions that one component is joined with.
abbrev pub join_active : Component → List Version → List ActiveRow
join_active c vs =
    map (λ v. record { component_id = c.id; name = c.name; version = v })
      (select (λ v. str_eq v.component_id c.id && same_status v.status active) vs)

abbrev pub join_all : List Component → List Version → List ActiveRow
join_all [] vs = []
join_all (c ∷ cs) vs = join_active c vs ++ join_all cs vs

-- `_SELECT_ACTIVE_COMPONENTS`
unfoldable pub active_rows : String → Database → List ActiveRow
unfolding sort_by
active_rows product_id db =
    sort_by (λ r s. str_ltb r.component_id s.component_id)
      (join_all (select (λ c. str_eq c.product_id product_id) db.components) db.versions)

abbrev pub tuple_of : Version → VersionTuple
tuple_of v = record { major = v.major; minor = v.minor; patch = v.patch; prerelease = v.prerelease }

-- The rows of `_SELECT_PRIOR_MANIFEST`: a pinned version that is not stored has no row.
abbrev pub prior_rows : List ReleaseComponent → List Version → List (String × VersionTuple)
prior_rows [] vs = []
prior_rows (rc ∷ rcs) vs =
    map (λ v. (rc.component_id, tuple_of v)) (select (λ v. str_eq v.id rc.version_id) vs)
    ++ prior_rows rcs vs

abbrev pub put_row : Map VersionTuple → String × VersionTuple → Map VersionTuple
put_row prior row = put row.0 row.1 prior

-- `_prior_manifest`
unfoldable pub prior_manifest : Option Release → Database → Map VersionTuple
prior_manifest none db = []
prior_manifest (some r) db =
    foldl put_row []
      (prior_rows (select (λ rc. str_eq rc.release_id r.id) db.release_components) db.versions)

-- The loop over the active records.
unfoldable pub own_levels : Map VersionTuple → List ActiveRow → Map BumpLevel → Map BumpLevel
own_levels prior [] own = own
own_levels prior (r ∷ rs) own =
    own_levels prior rs
      (put r.component_id (classify_change (lookup r.component_id prior) (tuple_of r.version)) own)

-- `any(component_id not in active_ids for component_id in prior)`
unfoldable pub is_removed_any : Map VersionTuple → List ActiveRow → Bool
is_removed_any prior rows = any (λ c. not (any (λ r. str_eq r.component_id c) rows)) (keys prior)

-- The levels of the rationale; `none` is a KeyError.
unfoldable pub explain : Map BumpLevel → Map BumpLevel → Option (Map (BumpLevel × BumpLevel))
explain [] effective = some []
explain ((c, level) ∷ own) effective = elim (lookup c effective) [
  | none ↦ none
  | some l ↦ Option.map (λ rest. (c, (level, l)) ∷ rest) (explain own effective)
]

pub record Derived : Type 0 where
  pub bump_level : BumpLevel
  pub bump_rationale : Option Rationale
  pub change_by_component : Map BumpLevel

-- The policy `default` of `_derive`, from what it reads; `none` is a KeyError.
unfoldable pub derive_default :
    Map VersionTuple → List ActiveRow → List (String × String) → Option Derived
unfolding own_levels is_removed_any explain
derive_default prior rows edges =
    let own = own_levels prior rows [] in
    let removed_any = is_removed_any prior rows in
    elim (derive_product_bump own edges removed_any) [
      | none ↦ none
      | some bump_level ↦ elim (effective_levels own edges) [
        | none ↦ none
        | some effective ↦
            Option.map
              (λ components. record {
                bump_level = bump_level;
                bump_rationale = some (record {
                  policy = default;
                  product_bump = bump_level;
                  removed_any = removed_any;
                  components = components;
                });
                change_by_component = own;
              })
              (explain own effective)
      ]
    ]

-- `_derive`
unfoldable pub derive :
    String → BumpPolicy → List ActiveRow → Option Release → Database → Option Derived
unfolding derive_default prior_manifest
derive product_id legacy rows latest db =
    some (record { bump_level = BumpLevel.minor; bump_rationale = none; change_by_component = [] })
derive product_id default rows latest db =
    derive_default (prior_manifest latest db) rows (edges_of product_id db)
