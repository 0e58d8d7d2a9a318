-- ===== src/Queries/Timeline.antt =====
-- app/queries/timeline/timeline_query.py: a product with its components and their versions.
use mathlib.Core.List.{append-nil, append_assoc}
use lavs_core.Prelude.{
  ◌≡◌, ◌↔◌, refl, ap, sym, ◌∙◌, Bool, true, false, ◌&&◌, ◌||◌, Option, none, some, List, [], ◌∷◌,
  ◌++◌, foldl, map, String, str_eq, eq_iff, any, select, ◌==◌, sort_by, In, In-sort_by,
  In-to_sort_by, Map, lookup, put, lookup-put, lookup-nil, Bool-cases, inl, inr, ◌⊎◌, subst,
}
use mathlib.Core.Option
use lavs_core.Text.{codes}
use lavs_core.Database.Tables.{Product, Component, Version, Database}
use lavs_core.Database.Statements.{str_ltb}
use lavs_core.Database.Rows.{In-select, In-to_select}
use lavs_core.Queries.Dependencies.{products_with_id}
use lavs_core.Queries.Products.{list_components_by_product}
use lavs_core.Queries.Versions.{below}

-- `ORDER BY major DESC, minor DESC, patch DESC, id DESC`
abbrev pub later_first : Version → Version → Bool
later_first v w =
    below w v
    || (v.major == w.major && (v.minor == w.minor && (v.patch == w.patch && str_ltb w.id v.id)))

-- The join of `_VERSIONS_SELECT`.
abbrev pub is_of_product : String → Database → Version → Bool
is_of_product product_id db v =
    any (λ c. str_eq c.id v.component_id && str_eq c.product_id product_id) db.components

-- `_VERSIONS_SELECT`; a component's identifier is a primary key, so that a version is joined once.
unfoldable pub version_rows : String → Database → List Version
unfolding sort_by
version_rows product_id db = sort_by later_first (select (is_of_product product_id db) db.versions)

-- `grouped.setdefault(component_id, []).append(version)`
unfoldable pub append_version : Map (List Version) → Version → Map (List Version)
append_version grouped v =
    put v.component_id (Option.get_or (lookup v.component_id grouped) [] ++ v ∷ []) grouped

-- `_read_versions_by_component`
unfoldable pub versions_by_component : String → Database → Map (List Version)
unfolding version_rows append_version
versions_by_component product_id db = foldl append_version [] (version_rows product_id db)

-- `versions_by_component.get(component_id, [])`
abbrev pub versions_of : Map (List Version) → String → List Version
versions_of grouped c = Option.get_or (lookup c grouped) []

-- `_read_components`
unfoldable pub components_with_versions : String → Database → List (Component × List Version)
unfolding list_components_by_product versions_by_component
components_with_versions product_id db =
    map (λ c. (c, versions_of (versions_by_component product_id db) c.id))
      (list_components_by_product product_id db)

abbrev pub head_product : List Product → Option Product
head_product [] = none
head_product (p ∷ ps) = some p

-- `_read_product`: the base version is not read, and takes the default of the response.
abbrev pub shown_product : Product → Product
shown_product p = record p { base_version = codes "0.0.0" }

-- `TimelineQuery.apply`
unfoldable pub timeline : String → Database → Option (Product × List (Component × List Version))
unfolding components_with_versions
timeline product_id db =
    Option.map (λ p. (shown_product p, components_with_versions product_id db))
      (head_product (products_with_id product_id db))

-- Grouping keeps, for each component, its rows in their order.
versions_of-foldl :
    (rows : List Version) (grouped : Map (List Version)) (c : String)
    → versions_of (foldl append_version grouped rows) c
      ≡ versions_of grouped c ++ select (λ v. str_eq v.component_id c) rows
unfolding append_version
versions_of-foldl [] grouped c = sym (append-nil (versions_of grouped c))
versions_of-foldl (v ∷ rows) grouped c =
    versions_of-foldl rows (append_version grouped v) c
    ∙ step (Bool-cases (str_eq v.component_id c))
  where
    step :
        (str_eq v.component_id c ≡ true) ⊎ (str_eq v.component_id c ≡ false)
        → versions_of (append_version grouped v) c ++ select (λ u. str_eq u.component_id c) rows
          ≡ versions_of grouped c ++ select (λ u. str_eq u.component_id c) (v ∷ rows)
    step (inl e) =
        rw (lookup-put v.component_id c (versions_of grouped v.component_id ++ v ∷ []) grouped, e)
          (append_assoc (versions_of grouped v.component_id) (v ∷ [])
              (select (λ u. str_eq u.component_id c) rows)
            ∙ ap (λ k. versions_of grouped k ++ v ∷ select (λ u. str_eq u.component_id c) rows)
                ((eq_iff v.component_id c).0 e))
    step (inr e) =
        rw (lookup-put v.component_id c (versions_of grouped v.component_id ++ v ∷ []) grouped, e)
          refl

-- The versions that the timeline shows for a stored component of the product are the rows of that
-- component in their order, and they are exactly the stored versions of it.
pub versions_of-versions_by_component :
    (product_id c : String) (db : Database)
    → any (λ x. str_eq x.id c && str_eq x.product_id product_id) db.components ≡ true
    → (versions_of (versions_by_component product_id db) c
        ≡ select (λ v. str_eq v.component_id c) (version_rows product_id db))
      × ((v : Version)
          → In v (versions_of (versions_by_component product_id db) c)
            ↔ (In v db.versions × (v.component_id ≡ c)))
unfolding versions_by_component
versions_of-versions_by_component product_id c db known = (
  same,
  λ v. (
    λ m.
        let (listed, mine) =
          In-select (λ x. str_eq x.component_id c) v (version_rows product_id db)
            (subst (In v) same m) in
        (version_rows-stored v listed, (eq_iff v.component_id c).0 mine),
    λ (stored, mine). subst (In v) (sym same) (
        In-to_select (λ x. str_eq x.component_id c) v (version_rows product_id db)
          (listed_of v stored mine) ((eq_iff v.component_id c).1 mine)),
  ),
)
  where
    same :
        versions_of (versions_by_component product_id db) c
        ≡ select (λ v. str_eq v.component_id c) (version_rows product_id db)
    same =
        versions_of-foldl (version_rows product_id db) [] c
        ∙ rw (lookup-nil {V = List Version} c) refl

    version_rows-stored : (v : Version) → In v (version_rows product_id db) → In v db.versions
    version_rows-stored v m =
        (In-select (is_of_product product_id db) v db.versions
          (In-sort_by later_first v (select (is_of_product product_id db) db.versions) m)).0

    listed_of :
        (v : Version) → In v db.versions → v.component_id ≡ c → In v (version_rows product_id db)
    listed_of v stored mine =
        In-to_sort_by later_first v (select (is_of_product product_id db) db.versions) (
          In-to_select (is_of_product product_id db) v db.versions stored (
            ap (λ k. any (λ x. str_eq x.id k && str_eq x.product_id product_id) db.components) mine
            ∙ known))
