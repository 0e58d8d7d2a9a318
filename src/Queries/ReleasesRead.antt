-- ===== src/Queries/ReleasesRead.antt =====
-- app/queries/releases_read: a release and the ledger of a product, with their frozen manifests.
pub mod Grouping
pub mod Listing
use lavs_core.Prelude.{
  ℕ, Bool, Option, none, some, List, [], ◌∷◌, ◌++◌, foldl, map, String, str_eq, any, select,
  sort_by, Map, lookup, put, if◌then◌else◌, Result, ok, err,
}
use mathlib.Core.Option
use lavs_core.Text.{Text, codes}
use lavs_core.Domain.ProductVersion.{dotted}
use lavs_core.Database.Tables.{
  Component, Version, Release, ReleaseComponent, ReleaseComponentResponse, ReleaseResponse,
  Database, Error, not_found,
}
use lavs_core.Database.Statements.{Action, ◌>>=◌, ◌>>◌, pure, raise, gets, first_or, continue}
use lavs_core.Database.StringOrder.{before_by}
use lavs_core.Queries.Dependencies.{products_with_id}
use lavs_core.Queries.Releases.{latest_releases}

-- `_version_string`
abbrev pub version_string : ℕ → ℕ → ℕ → Option String → Text
version_string major minor patch none = dotted major minor patch
version_string major minor patch (some prerelease) =
    dotted major minor patch ++ b'-' ∷ codes prerelease

-- A row of the join: the release and the entry that is made of the other columns.
pub record ManifestRow : Type 0 where
  pub release_id : String
  pub component : ReleaseComponentResponse

abbrev pub manifest_row : ReleaseComponent → Component → Version → ManifestRow
manifest_row rc c v = record {
  release_id = rc.release_id;
  component = record {
    component_id = rc.component_id;
    name = c.name;
    version_id = rc.version_id;
    version = version_string v.major v.minor v.patch v.prerelease;
    change_level = rc.change_level;
  };
}

abbrev pub joined_versions : ReleaseComponent → Component → List Version → List ManifestRow
joined_versions rc c vs = map (manifest_row rc c) (select (λ v. str_eq v.id rc.version_id) vs)

abbrev pub joined_components : ReleaseComponent → List Component → List Version → List ManifestRow
joined_components rc [] vs = []
joined_components rc (c ∷ cs) vs =
    let rest = joined_components rc cs vs in
    if str_eq c.id rc.component_id then joined_versions rc c vs ++ rest else rest

abbrev pub joined_rows : List ReleaseComponent → List Component → List Version → List ManifestRow
joined_rows [] cs vs = []
joined_rows (rc ∷ rcs) cs vs = joined_components rc cs vs ++ joined_rows rcs cs vs

-- `ORDER BY c.name, rc.component_id`
abbrev pub name_first : ManifestRow → ManifestRow → Bool
name_first r s =
    before_by (r.component.name, r.component.component_id)
      (s.component.name, s.component.component_id)

-- `_MANIFEST_SELECT`
unfoldable pub manifest_rows : List String → Database → List ManifestRow
unfolding sort_by
manifest_rows release_ids db = sort_by name_first (
    joined_rows
      (select (λ rc. any (λ id. str_eq id rc.release_id) release_ids) db.release_components)
      db.components db.versions)

-- `grouped.setdefault(release_id, []).append(component)`
unfoldable pub append_component :
    Map (List ReleaseComponentResponse) → ManifestRow → Map (List ReleaseComponentResponse)
append_component grouped row =
    put row.release_id (Option.get_or (lookup row.release_id grouped) [] ++ row.component ∷ [])
      grouped

-- `ReleaseManifestReader.read`
unfoldable pub read : List String → Database → Map (List ReleaseComponentResponse)
unfolding manifest_rows append_component
read [] db = []
read (id ∷ ids) db = foldl append_component [] (manifest_rows (id ∷ ids) db)

-- `manifests.get(release_id, [])`
abbrev pub manifest_of :
    Map (List ReleaseComponentResponse) → String → List ReleaseComponentResponse
manifest_of manifests release_id = Option.get_or (lookup release_id manifests) []

-- `ReleaseResponseMapper.to_model`
abbrev pub to_model : Release → List ReleaseComponentResponse → ReleaseResponse
to_model row components = record { release = row; components = components }

-- `GetReleaseByIdQuery.apply`
unfoldable pub get_release_by_id : String → Action ReleaseResponse
unfolding read
get_release_by_id release_id = do
  rows ← gets (λ db. select (λ r. str_eq r.id release_id) db.releases)
  row ← first_or not_found rows
  manifests ← gets (read (row.id ∷ []))
  pure (to_model row (manifest_of manifests row.id))

-- `ListReleasesByProductQuery.apply`, whose statement orders the rows as `_SELECT_LATEST_RELEASE` does
unfoldable pub list_releases_by_product : String → Action (List ReleaseResponse)
unfolding read latest_releases
list_releases_by_product product_id = do
  products ← gets (products_with_id product_id)
  product ← first_or not_found products
  rows ← gets (latest_releases product_id)
  manifests ← gets (read (map (λ r. r.id) rows))
  pure (map (λ r. to_model r (manifest_of manifests r.id)) rows)
