-- ===== src/Queries/Releases.antt =====
-- app/queries/releases and the route that cuts a release (app/routers/releases.py). The new
-- release's identifier and the clock's reading are arguments.
pub mod Cut
pub mod Replay
pub mod Manifest
pub mod Immutable
pub mod OwnLevels
pub mod Derivation
use lavs_core.Queries.Bumps.{
  ActiveRow, join_active, join_all, active_rows, tuple_of, prior_rows, put_row, prior_manifest,
  own_levels, is_removed_any, explain, Derived, derive_default, derive,
}
use lavs_core.Prelude.{
  ℕ, Bool, true, false, not, ◌&&◌, ◌||◌, Option, none, some, List, [], ◌∷◌, ◌++◌, String, str_eq,
  any, select, ltb, ◌==◌, foldl, if◌then◌else◌, Result, ok, err, sort_by, map, Map, put, lookup,
  keys,
}
use mathlib.Core.Option
use lavs_core.Text.{Text, codes}
use lavs_core.Domain.BumpLevel.{BumpLevel}
use lavs_core.Domain.ChangeClassifier.{VersionTuple, classify_change}
use lavs_core.Domain.BumpPropagation.{effective_levels, derive_product_bump}
use lavs_core.Domain.ProductVersion.{apply_bump, dotted}
use lavs_core.Events.{release_cut}
use lavs_core.Database.Tables.{
  BumpPolicy, legacy, default, VersionStatus, active, Product, Component, Version, Release,
  ReleaseComponent, Rationale, ReleaseComponentResponse, ReleaseResponse, release_body, Database,
  Error, not_found, conflict, key_error, index_error, value_error,
}
use lavs_core.Database.Statements.{
  Action, ◌>>=◌, ◌>>◌, pure, raise, gets, modify, insert, first_or, from_option, emit, str_ltb,
  is_value, same_status, continue,
}
use lavs_core.Queries.Dependencies.{products_with_id, edges_of}

-- `_SELECT_RELEASE_BY_IDEMPOTENCY`
abbrev pub has_key : String → String → Release → Bool
has_key product_id key r = str_eq r.product_id product_id && is_value r.idempotency_key key

-- `ORDER BY created_at DESC, id DESC`
abbrev pub newer : Release → Release → Bool
newer r s = ltb s.created_at r.created_at || (r.created_at == s.created_at && str_ltb s.id r.id)

-- `_SELECT_LATEST_RELEASE`
unfoldable pub latest_releases : String → Database → List Release
unfolding sort_by
latest_releases product_id db =
    sort_by newer (select (λ r. str_eq r.product_id product_id) db.releases)

abbrev pub head_of : List Release → Option Release
head_of [] = none
head_of (r ∷ rs) = some r

-- `if prerelease:`, which an empty text fails
abbrev pub suffix : Option String → Text
suffix none = []
suffix (some label) = if str_eq label "" then [] else b'-' ∷ codes label

-- `format_version`
unfoldable pub format_version : ℕ → ℕ → ℕ → Option String → Text
unfolding dotted
format_version major minor patch prerelease = dotted major minor patch ++ suffix prerelease

-- `to_release_components`, on a pinned row joined with its component and its version.
abbrev pub to_release_component : ReleaseComponent → Component → Version → ReleaseComponentResponse
to_release_component rc c v = record {
  component_id = rc.component_id;
  name = c.name;
  version_id = rc.version_id;
  version = format_version v.major v.minor v.patch v.prerelease;
  change_level = rc.change_level;
}

abbrev pub join_versions :
    ReleaseComponent → Component → List Version → List ReleaseComponentResponse
join_versions rc c vs = map (to_release_component rc c) (select (λ v. str_eq v.id rc.version_id) vs)

abbrev pub join_components :
    ReleaseComponent → List Component → List Version → List ReleaseComponentResponse
join_components rc [] vs = []
join_components rc (c ∷ cs) vs =
    let rest = join_components rc cs vs in
    if str_eq c.id rc.component_id then join_versions rc c vs ++ rest else rest

abbrev pub join_manifest :
    List ReleaseComponent → List Component → List Version → List ReleaseComponentResponse
join_manifest [] cs vs = []
join_manifest (rc ∷ rcs) cs vs = join_components rc cs vs ++ join_manifest rcs cs vs

-- `_SELECT_RELEASE_MANIFEST`; the join makes the component's identifier that of the row.
unfoldable pub release_manifest : String → Database → List ReleaseComponentResponse
unfolding sort_by
release_manifest release_id db =
    sort_by (λ r s. str_ltb r.component_id s.component_id)
      (join_manifest (select (λ rc. str_eq rc.release_id release_id) db.release_components)
        db.components db.versions)

-- `_load_release`, `to_release_response`
unfoldable pub load_release : String → Action ReleaseResponse
load_release release_id = do
  components ← gets (release_manifest release_id)
  rows ← gets (λ db. select (λ r. str_eq r.id release_id) db.releases)
  release ← first_or index_error rows
  pure (record { release = release; components = components })

-- `CutReleaseRequest`
pub record CutRequest : Type 0 where
  pub product_id : String
  pub label : Option String
  pub notes : Option String
  pub idempotency_key : Option String

-- The keys of `releases` and of `release_components`, and their references.
abbrev pub may_insert_release : Release → Database → Bool
may_insert_release r db =
    not (any (λ s. str_eq s.id r.id) db.releases) && any (λ p. str_eq p.id r.product_id) db.products

abbrev pub insert_release : Release → Database → Database
insert_release r db = record db { releases = db.releases ++ r ∷ [] }

abbrev pub may_insert_pin : ReleaseComponent → Database → Bool
may_insert_pin rc db =
    not (
      any (λ x. str_eq x.release_id rc.release_id && str_eq x.component_id rc.component_id)
        db.release_components)
    && any (λ r. str_eq r.id rc.release_id) db.releases

abbrev pub insert_pin : ReleaseComponent → Database → Database
insert_pin rc db = record db { release_components = db.release_components ++ rc ∷ [] }

-- The row of `_INSERT_RELEASE_COMPONENT`.
abbrev pub pin_of : String → Map BumpLevel → ActiveRow → ReleaseComponent
pin_of release_id changes r = record {
  release_id = release_id;
  component_id = r.component_id;
  version_id = r.version.id;
  change_level = lookup r.component_id changes;
}

-- The loop over the active records.
unfoldable pub insert_pins : String → Map BumpLevel → List ActiveRow → Action (Unit {0})
insert_pins release_id changes [] = pure tt
insert_pins release_id changes (r ∷ rs) =
    insert (may_insert_pin (pin_of release_id changes r)) (insert_pin (pin_of release_id changes r))
    >> insert_pins release_id changes rs

-- The release that the request's key names already.
unfoldable pub replayed : String → Option String → Database → List Release
replayed product_id none db = []
replayed product_id (some key) db = select (has_key product_id key) db.releases

-- `product_version`, where `apply_bump` may raise a ValueError
unfoldable pub next_version : Text → BumpLevel → Action Text
next_version current level w = elim (apply_bump current level) [
  | err e ↦ (err (value_error e), w)
  | ok version ↦ (ok version, w)
]

-- `latest_version if latest_version is not None else base_version`
abbrev pub current_version : Option Release → Product → Text
current_version none product = product.base_version
current_version (some r) product = r.product_version

-- The new row of `releases`.
abbrev pub release_of : CutRequest → String → ℕ → Text → Derived → Release
release_of request release_id now version derived = record {
  id = release_id;
  product_id = request.product_id;
  product_version = version;
  label = request.label;
  notes = request.notes;
  idempotency_key = request.idempotency_key;
  bump_level = derived.bump_level;
  bump_rationale = derived.bump_rationale;
  created_at = now;
}

-- The part of `apply` that writes, and reads the result back.
unfoldable pub store_cut :
    Release → Map BumpLevel → List ActiveRow → Action (ReleaseResponse × Bool)
unfolding insert_pins load_release
store_cut row changes rows = do
  insert (may_insert_release row) (insert_release row)
  insert_pins row.id changes rows
  release ← load_release row.id
  pure (release, true)

-- The part of `apply` past the test for active rows.
unfoldable pub cut_rows :
    CutRequest → String → ℕ → Product → List ActiveRow → Action (ReleaseResponse × Bool)
unfolding latest_releases derive next_version store_cut
cut_rows request release_id now product rows = do
  latest ← gets (λ db. head_of (latest_releases request.product_id db))
  choice ← gets (derive request.product_id product.bump_policy rows latest)
  derived ← from_option key_error choice
  version ← next_version (current_version latest product) derived.bump_level
  store_cut (release_of request release_id now version derived) derived.change_by_component rows

-- A fresh cut of the product: what `apply` does past the replay.
unfoldable pub cut_fresh : CutRequest → String → ℕ → Product → Action (ReleaseResponse × Bool)
unfolding active_rows cut_rows
cut_fresh request release_id now product = do
  rows ← gets (active_rows request.product_id)
  first_or conflict rows
  cut_rows request release_id now product rows

-- A release that exists is loaded and returned as it is.
unfoldable pub reuse_or :
    Action (ReleaseResponse × Bool) → List Release → Action (ReleaseResponse × Bool)
unfolding load_release
reuse_or fresh [] = fresh
reuse_or fresh (r ∷ rs) = load_release r.id >>= λ release. pure (release, false)

-- `CutReleaseQuery.apply`: the release, and whether it was created.
unfoldable pub cut_release : CutRequest → String → ℕ → Action (ReleaseResponse × Bool)
unfolding cut_fresh replayed reuse_or
cut_release request release_id now = do
  products ← gets (products_with_id request.product_id)
  product ← first_or not_found products
  existing ← gets (replayed request.product_id request.idempotency_key)
  reuse_or (cut_fresh request release_id now product) existing

-- `if result.created: await event_bus.publish(...)`
unfoldable pub announce : String → ReleaseResponse × Bool → Action ReleaseResponse
announce product_id (release, true) =
    emit (record { event_type = release_cut; product_id = product_id; body = release_body release })
    >> pure release
announce product_id (release, false) = pure release

-- The route: an event is published only for a fresh cut.
unfoldable pub cut_release_route : CutRequest → String → ℕ → Action ReleaseResponse
unfolding cut_release announce
cut_release_route request release_id now =
    cut_release request release_id now >>= announce request.product_id
