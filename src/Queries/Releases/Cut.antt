-- ===== src/Queries/Releases/Cut.antt =====
-- A fresh cut, by the tables before and after it.
pub mod Active
pub mod Latest
pub mod Prior
pub mod Outcome
pub mod Success
use lavs_core.Prelude.{
  ℕ, ◌+◌, ◌≡◌, ◌≢◌, ◌↔◌, ◌⊎◌, refl, sym, ap, ◌∙◌, subst, Bool, true, false, not, Option, none, some,
  List, [], ◌∷◌, ◌++◌, map, String, str_eq, eq_iff, arith, any, select, select-append, In, inl, inr,
  Map, lookup, ok, err, Bool-cases, eq_of_ok, eq_of_some, Result-cases,
}
use mathlib.Core.List.{append-nil}
use lavs_core.Text.{Text}
use lavs_core.Domain.BumpLevel.{BumpLevel}
use lavs_core.Domain.ChangeClassifier.{VersionTuple}
use lavs_core.Domain.ProductVersion.{
  Core, parse_core, dotted, apply_bump, bump_major, bump_minor, bump_patch,
}
use lavs_core.Database.Tables.{
  BumpPolicy, legacy, default, Product, Release, ReleaseComponent, ReleaseResponse, Database, World,
}
use lavs_core.Database.Rows.{select_of_absent}
use lavs_core.Queries.Dependencies.{edges_of}
use lavs_core.Queries.Bumps.{
  ActiveRow, Derived, active_rows, derive, derive_default, prior_manifest,
}
use lavs_core.Queries.Releases.{
  CutRequest, latest_releases, head_of, current_version, release_of, cut_fresh, load_release,
  release_manifest, may_insert_release,
}
use lavs_core.Queries.Releases.Manifest.{cut_fresh-CutSteps}
use lavs_core.Queries.Releases.Cut.Active.{IsActiveRow, In-active_rows}
use lavs_core.Queries.Releases.Cut.Prior.{IsPrior, prior_manifest-IsPrior}
use lavs_core.Queries.Releases.Cut.Latest.{IsLatest, latest-IsLatest}

-- The version that a bump of a version makes.
abbrev pub IsBumped : Text → BumpLevel → Text → Type 0
IsBumped current BumpLevel.none version = version ≡ current
IsBumped current BumpLevel.patch version =
    (c : Core) × (parse_core current ≡ ok c) × (version ≡ dotted c.major c.minor (c.patch + 1))
IsBumped current BumpLevel.minor version =
    (c : Core) × (parse_core current ≡ ok c) × (version ≡ dotted c.major (c.minor + 1) 0)
IsBumped current BumpLevel.major version =
    (c : Core) × (parse_core current ≡ ok c) × (version ≡ dotted (c.major + 1) 0 0)

apply_bump-IsBumped :
    (current : Text) (level : BumpLevel) (version : Text)
    → apply_bump current level ≡ ok version
    → IsBumped current level version
unfolding apply_bump bump_major bump_minor bump_patch
apply_bump-IsBumped current BumpLevel.none version h = sym (eq_of_ok h)
apply_bump-IsBumped current BumpLevel.patch version h = elim (Result-cases (parse_core current)) [
  | inl (e, f) ↦ cc (rw f at h)
  | inr (c, f) ↦ (c, f, sym (eq_of_ok (rw f at h)))
]
apply_bump-IsBumped current BumpLevel.minor version h = elim (Result-cases (parse_core current)) [
  | inl (e, f) ↦ cc (rw f at h)
  | inr (c, f) ↦ (c, f, sym (eq_of_ok (rw f at h)))
]
apply_bump-IsBumped current BumpLevel.major version h = elim (Result-cases (parse_core current)) [
  | inl (e, f) ↦ cc (rw f at h)
  | inr (c, f) ↦ (c, f, sym (eq_of_ok (rw f at h)))
]

load_release_lem :
    (row : Release) (w after : World) (response : ReleaseResponse)
    → may_insert_release row w.db ≡ true
    → after.db.releases ≡ w.db.releases ++ row ∷ []
    → (load_release row.id after).0 ≡ ok response
    → response ≡ record { release = row; components = release_manifest row.id after.db }
unfolding load_release
load_release_lem row w after response fresh added h =
    let found : select (λ r. str_eq r.id row.id) after.db.releases ≡ row ∷ [] =
      ap (select (λ (r : Release). str_eq r.id row.id)) added
      ∙ (select-append (λ (r : Release). str_eq r.id row.id) w.db.releases (row ∷ [])
          ∙ rw
              (
                select_of_absent (λ (r : Release). str_eq r.id row.id) w.db.releases (ground arith),
                (eq_iff row.id row.id).1 refl,
              )
              refl) in
    sym (eq_of_ok (rw found at h))

-- How a policy derives the bump of the product from the active rows and the latest release.
abbrev pub IsDerived :
    String → Database → BumpPolicy → Option Release → List ActiveRow → Derived → Type 0
IsDerived product_id db legacy latest rows derived =
    derived
    ≡ record { bump_level = BumpLevel.minor; bump_rationale = none; change_by_component = [] }
IsDerived product_id db default latest rows derived =
    (prior : Map VersionTuple) × IsPrior latest db prior
    × (derive_default prior rows (edges_of product_id db) ≡ some derived)

derive-IsDerived :
    (product_id : String) (db : Database) (policy : BumpPolicy) (latest : Option Release)
    (rows : List ActiveRow) (derived : Derived)
    → derive product_id policy rows latest db ≡ some derived
    → IsDerived product_id db policy latest rows derived
unfolding derive
derive-IsDerived product_id db legacy latest rows derived h = sym (eq_of_some h)
derive-IsDerived product_id db default latest rows derived h =
    (prior_manifest latest db, prior_manifest-IsPrior latest db, h)

-- The version that the product has before the cut.
abbrev pub IsCurrent : Product → Option Release → Text → Type 0
IsCurrent product none current = current ≡ product.base_version
IsCurrent product (some r) current = current ≡ r.product_version

pub current_version-IsCurrent :
    (latest : Option Release) (product : Product)
    → IsCurrent product latest (current_version latest product)
current_version-IsCurrent none product = refl
current_version-IsCurrent (some r) product = refl

-- What a cut of a product has read, stored and returned.
pub record IsCut (request : CutRequest) (id : String) (now : ℕ) (product : Product) (w : World)
    (after : World) (response : ReleaseResponse) : Type 0 where
  pub latest : Option Release
  pub current : Text
  pub rows : List ActiveRow
  pub derived : Derived
  pub version : Text
  pub newest : IsLatest request.product_id w.db latest
  pub from : IsCurrent product latest current
  pub active : (r : ActiveRow) → In r rows ↔ IsActiveRow request.product_id w.db r
  pub not_empty : rows ≢ []
  pub derives : IsDerived request.product_id w.db product.bump_policy latest rows derived
  pub bumped : IsBumped current derived.bump_level version
  pub stored : after ≡ record w {
    db = record w.db {
      releases =
          w.db.releases
          ++ record {
            id = id;
            product_id = request.product_id;
            product_version = version;
            label = request.label;
            notes = request.notes;
            idempotency_key = request.idempotency_key;
            bump_level = derived.bump_level;
            bump_rationale = derived.bump_rationale;
            created_at = now;
          }
            ∷ [];
      release_components =
          w.db.release_components
          ++ map
              (λ (r : ActiveRow). record {
                release_id = id;
                component_id = r.component_id;
                version_id = r.version.id;
                change_level = lookup r.component_id derived.change_by_component;
              })
              rows;
    };
  }
  pub returned : response ≡ record {
    release = record {
      id = id;
      product_id = request.product_id;
      product_version = version;
      label = request.label;
      notes = request.notes;
      idempotency_key = request.idempotency_key;
      bump_level = derived.bump_level;
      bump_rationale = derived.bump_rationale;
      created_at = now;
    };
    components = release_manifest id after.db;
  }

pub cut_fresh-IsCut :
    (request : CutRequest) (id : String) (now : ℕ) (product : Product) (w : World)
    (response : ReleaseResponse) (created : Bool)
    → (cut_fresh request id now product w).0 ≡ ok (response, created)
    → (created ≡ true)
      × IsCut request id now product w (cut_fresh request id now product w).1 response
cut_fresh-IsCut request id now product w response created h =
    let (is_new, s) = cut_fresh-CutSteps request id now product w response created h in
    let latest : Option Release = head_of (latest_releases request.product_id w.db) in
    let rows : List ActiveRow = active_rows request.product_id w.db in
    (
      is_new,
      record {
        latest = latest;
        current = current_version latest product;
        rows = rows;
        derived = s.derived;
        version = s.version;
        newest = latest-IsLatest request.product_id w;
        from = current_version-IsCurrent latest product;
        active = λ r. In-active_rows request.product_id w.db r;
        not_empty = s.not_empty;
        derives =
            derive-IsDerived request.product_id w.db product.bump_policy latest rows s.derived
              s.derives;
        bumped =
            apply_bump-IsBumped (current_version latest product) s.derived.bump_level s.version
              s.bumps;
        stored = s.stored;
        returned =
            load_release_lem (release_of request id now s.version s.derived) w
              (cut_fresh request id now product w).1 response s.fresh
              (ap (λ (x : World). x.db.releases) s.stored) s.loaded;
      },
    )
