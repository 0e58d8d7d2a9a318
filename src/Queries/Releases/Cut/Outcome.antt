-- ===== src/Queries/Releases/Cut/Outcome.antt =====
-- The two outcomes of a fresh cut.
use lavs_core.Prelude.{
  ℕ, ◌≡◌, ◌≢◌, ◌⊎◌, ap, ◌∙◌, subst, true, Option, String, str_eq, eq_iff, In, inl, inr, ok, err,
  Result-cases,
}
use lavs_core.Text.{Text}
use lavs_core.Domain.ProductVersion.{Core, parse_core}
use lavs_core.Database.Tables.{Product, Release, ReleaseComponent, ReleaseResponse, World, Error}
use lavs_core.Database.Rows.{Unique, any-true}
use lavs_core.Queries.Bumps.{ActiveRow, active_rows}
use lavs_core.Queries.Releases.{CutRequest, latest_releases, head_of, current_version, cut_fresh}
use lavs_core.Queries.Releases.Cut.{IsCurrent, current_version-IsCurrent, IsCut, cut_fresh-IsCut}
use lavs_core.Queries.Releases.Cut.Active.{IsActiveRow, In-active_rows}
use lavs_core.Queries.Releases.Cut.Latest.{IsLatest, latest-IsLatest}
use lavs_core.Queries.Releases.Cut.Success.{cut_fresh-ok}

-- What a cut needs of the store.
pub record MayCut (request : CutRequest) (id : String) (product : Product) (w : World)
    : Type 0 where
  pub product_is_stored : (p : Product) × In p w.db.products × (p.id ≡ request.product_id)
  -- the new identifier is not taken
  pub fresh : (r : Release) → In r w.db.releases → r.id ≢ id
  pub unpinned : (x : ReleaseComponent) → In x w.db.release_components → x.release_id ≢ id
  pub has_active : (r : ActiveRow) × IsActiveRow request.product_id w.db r
  pub one_active : Unique (λ (r : ActiveRow). r.component_id) (active_rows request.product_id w.db)
  -- the version that the product has before the cut can be read
  pub readable :
      (latest : Option Release) (current : Text)
      → IsLatest request.product_id w.db latest
      → IsCurrent product latest current
      → (c : Core) × (parse_core current ≡ ok c)

MayCut-ok :
    (request : CutRequest) (id : String) (now : ℕ) (product : Product) (w : World)
    → MayCut request id product w
    → (response : ReleaseResponse) × ((cut_fresh request id now product w).0 ≡ ok (response, true))
MayCut-ok request id now product w may =
    let (p, there, mine) = may.product_is_stored in
    let (r, row) = may.has_active in
    let latest = head_of (latest_releases request.product_id w.db) in
    let (c, readable) =
      may.readable latest (current_version latest product) (latest-IsLatest request.product_id w)
        (current_version-IsCurrent latest product) in
    cut_fresh-ok request id now product w c
      (any-true (λ p. str_eq p.id request.product_id) p w.db.products there
        ((eq_iff p.id request.product_id).1 mine))
      may.fresh may.unpinned
      (λ empty. subst (In r) empty ((In-active_rows request.product_id w.db r).1 row))
      may.one_active readable

-- A fresh cut of a product has one of two outcomes. It creates a release: it starts from the
-- product's latest stored release, that is one that none is newer than, or else from the product's
-- base version, and the new version is that one with the number of the derived level incremented
-- and the lower numbers reset; it has at least one active row, and these are exactly the active
-- versions of the product's components; the level is that of the product's policy: minor, or what
-- the policy `default` derives from these rows, the stored edges and the versions that the latest
-- release pins; it adds one release, with the request's fields, the derived level and the new
-- version, and one pin for each active row, and changes nothing else; and the response is that
-- release with its manifest. Or it ends in an error, and then the product is not stored, or the
-- identifier is taken by a release or a pin, or no version is active, or a component has two
-- active rows, or the version to start from cannot be read.
pub cut_fresh_cases :
    (request : CutRequest) (id : String) (now : ℕ) (product : Product) (w : World)
    → ((response : ReleaseResponse) × ((cut_fresh request id now product w).0 ≡ ok (response, true))
        × IsCut request id now product w (cut_fresh request id now product w).1 response)
      ⊎ ((e : Error) × ((cut_fresh request id now product w).0 ≡ err e)
          × (¬ (MayCut request id product w)))
cut_fresh_cases request id now product w =
    elim (Result-cases (cut_fresh request id now product w).0) [
      | inl (e, f) ↦
          inr (e, f, λ may. let (response, g) = MayCut-ok request id now product w may in cc (f, g))
      | inr ((response, created), f) ↦
          let (is_new, cut) = cut_fresh-IsCut request id now product w response created f in
          inl (response, f ∙ ap (λ b. ok (response, b)) is_new, cut)
    ]
