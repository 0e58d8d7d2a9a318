-- ===== src/Queries/Releases/Cut/Success.antt =====
-- When a fresh cut succeeds.
use lavs_core.Prelude.{
  ℕ, ◌+◌, ◌≡◌, ◌≢◌, refl, sym, ap, ◌∙◌, Bool, true, false, ◌&&◌, Option, List, [], ◌∷◌, map, String,
  str_eq, eq_iff, arith, any, any-append, In, inl, inr, ⊎_elim, In-append, Map, ok, Bool-cases,
}
use lavs_core.Text.{Text}
use lavs_core.Domain.BumpLevel.{BumpLevel}
use lavs_core.Domain.ProductVersion.{
  Core, dotted, parse_core, apply_bump, bump_major, bump_minor, bump_patch,
}
use lavs_core.Database.Tables.{Product, Release, ReleaseComponent, ReleaseResponse, World, conflict}
use lavs_core.Database.Statements.{Action, continue, first_or}
use lavs_core.Database.Rows.{Unique, any-false, any-select}
use lavs_core.Queries.Bumps.{ActiveRow, active_rows}
use lavs_core.Queries.Releases.{
  CutRequest, latest_releases, head_of, current_version, release_of, pin_of, insert_pin,
  insert_pins, insert_release, load_release, next_version, store_cut, cut_rows, cut_fresh,
  release_manifest, may_insert_release,
}
use lavs_core.Queries.Releases.Manifest.{insert_pins_lem, with_pins}
use lavs_core.Queries.Releases.Derivation.{derive-total}

none_passes :
    {A : Type 0} (p : A → Bool) (xs : List A) → ((x : A) → In x xs → p x ≡ false) → any p xs ≡ false
none_passes p [] h = refl
none_passes p (x ∷ xs) h = rw (h x (inl refl)) (none_passes p xs (λ y m. h y (inr m)))

insert_pins-ok :
    (id : String) (changes : Map BumpLevel) (rows : List ActiveRow) (w : World)
    → Unique (λ (r : ActiveRow). r.component_id) rows
    → any (λ r. str_eq r.id id) w.db.releases ≡ true
    → ((x : ReleaseComponent) (r : ActiveRow)
        → In x w.db.release_components
        → In r rows
        → x.release_id ≡ id
        → x.component_id ≢ r.component_id)
    → (insert_pins id changes rows w).0 ≡ ok tt
unfolding insert_pins
insert_pins-ok id changes [] w unique stored new = refl
insert_pins-ok id changes (r ∷ rs) w unique stored new =
    let pin = pin_of id changes r in
    let free : any
          (λ (x : ReleaseComponent). str_eq x.release_id id && str_eq x.component_id r.component_id)
          w.db.release_components
        ≡ false =
      none_passes
        (λ (x : ReleaseComponent). str_eq x.release_id id && str_eq x.component_id r.component_id)
        w.db.release_components
        (λ x m. elim (Bool-cases (str_eq x.release_id id)) [
          | inr n ↦ rw n refl
          | inl e ↦ elim (Bool-cases (str_eq x.component_id r.component_id)) [
            | inr n ↦ rw (e, n) refl
            | inl f ↦ absurd (
                new x r m (inl refl) ((eq_iff x.release_id id).0 e)
                  ((eq_iff x.component_id r.component_id).0 f))
          ]
        ]) in
    rw (free, stored)
      (insert_pins-ok id changes rs (record w { db = insert_pin pin w.db }) unique.1 stored
        (λ x s m there of_id same.
          ⊎_elim (λ old. new x s old (inr there) of_id same)
            (λ here. elim here [
              | inl e ↦ cc (
                any-false (λ (y : ActiveRow). str_eq y.component_id r.component_id) rs unique.0 s
                    there,
                (eq_iff s.component_id r.component_id).1
                    (sym same ∙ ap (λ (y : ReleaseComponent). y.component_id) e),
              )
              | inr e ↦ absurd e
            ])
            (In-append x w.db.release_components (pin ∷ []) m)))

load_release-ok :
    (id : String) (w : World)
    → any (λ r. str_eq r.id id) w.db.releases ≡ true
    → (response : ReleaseResponse) × (load_release id w ≡ (ok response, w))
unfolding load_release
load_release-ok id w h =
    let (r, rest, e) = any-select (λ (r : Release). str_eq r.id id) w.db.releases h in
    (record { release = r; components = release_manifest id w.db }, rw e refl)

apply_bump-ok :
    (current : Text) (level : BumpLevel) (c : Core)
    → parse_core current ≡ ok c
    → (version : Text) × (apply_bump current level ≡ ok version)
unfolding apply_bump bump_major bump_minor bump_patch
apply_bump-ok current BumpLevel.none c h = (current, refl)
apply_bump-ok current BumpLevel.patch c h = (dotted c.major c.minor (c.patch + 1), rw h refl)
apply_bump-ok current BumpLevel.minor c h = (dotted c.major (c.minor + 1) 0, rw h refl)
apply_bump-ok current BumpLevel.major c h = (dotted (c.major + 1) 0 0, rw h refl)

store_cut-ok :
    (row : Release) (changes : Map BumpLevel) (rows : List ActiveRow) (w : World)
    → may_insert_release row w.db ≡ true
    → Unique (λ (r : ActiveRow). r.component_id) rows
    → ((x : ReleaseComponent) → In x w.db.release_components → x.release_id ≢ row.id)
    → (response : ReleaseResponse) × ((store_cut row changes rows w).0 ≡ ok (response, true))
unfolding store_cut
store_cut-ok row changes rows w may unique new =
    let added : World = record w { db = insert_release row w.db } in
    let stored : any (λ r. str_eq r.id row.id) added.db.releases ≡ true =
      any-append (λ (r : Release). str_eq r.id row.id) w.db.releases (row ∷ [])
      ∙ ground (arith, (eq_iff row.id row.id).1 refl) in
    let pinned = insert_pins_lem row.id changes rows added tt (
      insert_pins-ok row.id changes rows added unique stored
        (λ x r m there of_id. absurd (new x m of_id))) in
    let (response, loaded) =
      load_release-ok row.id (with_pins (map (pin_of row.id changes) rows) added) stored in
    (response, rw (may, pinned, loaded) refl)

next_version-ok :
    (current : Text) (level : BumpLevel) (w : World) (version : Text)
    → apply_bump current level ≡ ok version
    → next_version current level w ≡ (ok version, w)
unfolding next_version
next_version-ok current level w version h = rw (next_version, h) refl

past_test :
    {A B : Type 0} (xs : List A) (m : Action B) (w : World)
    → xs ≢ []
    → continue (first_or conflict xs w).0 (λ _. m) (first_or conflict xs w).1 ≡ m w
past_test [] m w h = absurd (h refl)
past_test (x ∷ xs) m w h = refl

pub cut_fresh-ok :
    (request : CutRequest) (id : String) (now : ℕ) (product : Product) (w : World) (c : Core)
    → any (λ p. str_eq p.id request.product_id) w.db.products ≡ true
    → ((r : Release) → In r w.db.releases → r.id ≢ id)
    → ((x : ReleaseComponent) → In x w.db.release_components → x.release_id ≢ id)
    → active_rows request.product_id w.db ≢ []
    → Unique (λ (r : ActiveRow). r.component_id) (active_rows request.product_id w.db)
    → parse_core (current_version (head_of (latest_releases request.product_id w.db)) product)
      ≡ ok c
    → (response : ReleaseResponse) × ((cut_fresh request id now product w).0 ≡ ok (response, true))
unfolding cut_fresh cut_rows
cut_fresh-ok request id now product w c stored fresh new not_empty unique readable =
    let latest : Option Release = head_of (latest_releases request.product_id w.db) in
    let rows : List ActiveRow = active_rows request.product_id w.db in
    let (derived, e) = derive-total request.product_id product.bump_policy rows latest w.db in
    let (version, f) =
      apply_bump-ok (current_version latest product) derived.bump_level c readable in
    let g = next_version-ok (current_version latest product) derived.bump_level w version f in
    let free : any (λ r. str_eq r.id id) w.db.releases ≡ false =
      none_passes (λ (r : Release). str_eq r.id id) w.db.releases
        (λ r m. elim (Bool-cases (str_eq r.id id)) [
          | inl q ↦ absurd (fresh r m ((eq_iff r.id id).0 q))
          | inr n ↦ n
        ]) in
    let (response, h) =
      store_cut-ok (release_of request id now version derived) derived.change_by_component rows w
        (rw (free, stored) refl) unique new in
    (
      response,
      ap (λ (x : _ × World). x.0)
            (past_test rows (cut_rows request id now product rows) w not_empty)
          ∙ rw (e, g) h,
    )
