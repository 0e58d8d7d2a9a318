-- ===== src/Queries/Releases/Manifest.antt =====
-- What a fresh cut of a release stores.
use mathlib.Core.List.{append-nil, append_assoc}
use lavs_core.Queries.Bumps.{Derived, ActiveRow, active_rows, derive}
use lavs_core.Prelude.{
  ℕ, ◌≡◌, ◌≢◌, refl, ap, sym, ◌∙◌, subst, Bool, true, Option, some, List, [], ◌∷◌, ◌++◌, map,
  String, str_eq, select, Result, ok, err, inl, inr, ◌⊎◌, Bool-cases, List-cases, Map, Option-cases,
  eq_of_ok, Result-cases,
}
use lavs_core.Text.{Text}
use lavs_core.Domain.BumpLevel.{BumpLevel}
use lavs_core.Domain.ProductVersion.{apply_bump, VersionError}
use lavs_core.Database.Tables.{
  Product, Release, ReleaseComponent, ReleaseResponse, World, Error, conflict, value_error,
}
use lavs_core.Database.Statements.{Action, continue, first_or}
use lavs_core.Queries.Releases.{
  CutRequest, latest_releases, head_of, current_version, release_of, pin_of, insert_pin,
  insert_pins, may_insert_pin, may_insert_release, insert_release, load_release, cut_fresh,
  cut_rows, store_cut, next_version,
}

abbrev pub with_pins : List ReleaseComponent → World → World
with_pins pins w = record w {
  db = record w.db { release_components = w.db.release_components ++ pins };
}

-- The loop that pins the versions stores one row for each, if it ends without an error.
pub insert_pins_lem :
    (id : String) (changes : Map BumpLevel) (rows : List ActiveRow) (w : World) (u : Unit {0})
    → (insert_pins id changes rows w).0 ≡ ok u
    → insert_pins id changes rows w ≡ (ok tt, with_pins (map (pin_of id changes) rows) w)
unfolding insert_pins
insert_pins_lem id changes [] w u h =
    ap (λ pins. (ok tt, record w { db = record w.db { release_components = pins } }))
      (sym (append-nil w.db.release_components))
insert_pins_lem id changes (r ∷ rs) w u h =
    elim (Bool-cases (may_insert_pin (pin_of id changes r) w.db)) [
      | inr n ↦ cc (rw n at h)
      | inl e ↦ rw e (
          insert_pins_lem id changes rs (record w { db = insert_pin (pin_of id changes r) w.db }) u
            (rw e at h)
          ∙ ap (λ pins. (ok tt, record w { db = record w.db { release_components = pins } }))
              (append_assoc w.db.release_components (pin_of id changes r ∷ [])
                (map (pin_of id changes) rs)))
    ]

-- What a successful cut of a product has done.
pub record CutSteps (request : CutRequest) (id : String) (now : ℕ) (product : Product) (w : World)
    (after : World) (response : ReleaseResponse) : Type 0 where
  pub derived : Derived
  pub version : Text
  -- the bump is the one that the policy derives from the active rows and the latest release
  pub derives :
      derive request.product_id product.bump_policy
        (active_rows request.product_id w.db)
        (head_of (latest_releases request.product_id w.db))
        w.db
      ≡ some derived
  -- the version is the latest one, or the product's base version, bumped by it
  pub bumps :
      apply_bump
        (current_version (head_of (latest_releases request.product_id w.db)) product)
        derived.bump_level
      ≡ ok version
  pub not_empty : active_rows request.product_id w.db ≢ []
  -- one release is added, with one pinned version for each active row
  pub stored :
      after
      ≡ with_pins
          (map (pin_of id derived.change_by_component) (active_rows request.product_id w.db))
          (record w { db = insert_release (release_of request id now version derived) w.db })
  pub loaded : (load_release id after).0 ≡ ok response
  -- the identifier was not taken
  pub fresh : may_insert_release (release_of request id now version derived) w.db ≡ true

next_version-cases :
    (current : Text) (level : BumpLevel) (w : World)
    → ((e : Error) × (next_version current level w ≡ (err e, w)))
      ⊎ ((version : Text) × (apply_bump current level ≡ ok version)
          × (next_version current level w ≡ (ok version, w)))
unfolding next_version
next_version-cases current level w = cases (apply_bump current level) refl
  where
    cases :
        (r : Result VersionError Text)
        → apply_bump current level ≡ r
        → ((e : Error) × (next_version current level w ≡ (err e, w)))
          ⊎ ((version : Text) × (apply_bump current level ≡ ok version)
              × (next_version current level w ≡ (ok version, w)))
    cases (err e) h = inl (value_error e, rw (next_version, h) refl)
    cases (ok version) h = inr (version, h, rw (next_version, h) refl)

pub load_release-reads : (id : String) (w : World) → (load_release id w).1 ≡ w
unfolding load_release
load_release-reads id w = elim (List-cases (select (λ r. str_eq r.id id) w.db.releases)) [
  | inl e ↦ rw e refl
  | inr (r, rs, e) ↦ rw e refl
]

store_cut_lem :
    (row : Release) (changes : Map BumpLevel) (rows : List ActiveRow) (w : World)
    (response : ReleaseResponse) (created : Bool)
    → (store_cut row changes rows w).0 ≡ ok (response, created)
    → (created ≡ true)
      × (may_insert_release row w.db ≡ true)
      × ((store_cut row changes rows w).1
          ≡ with_pins
              (map (pin_of row.id changes) rows)
              (record w { db = insert_release row w.db }))
      × ((load_release row.id (
            with_pins
              (map (pin_of row.id changes) rows)
              (record w { db = insert_release row w.db }))).0
          ≡ ok response)
unfolding store_cut
store_cut_lem row changes rows w response created h =
    elim (Bool-cases (may_insert_release row w.db)) [
      | inr n ↦ cc (rw n at h)
      | inl e ↦
          elim (Result-cases
            (insert_pins row.id changes rows (record w { db = insert_release row w.db })).0) [
              | inl (x, q) ↦ cc (rw (e, q) at h)
              | inr (u, q) ↦
                  let pinned =
                    with_pins (map (pin_of row.id changes) rows)
                      (record w { db = insert_release row w.db }) in
                  let runs =
                    insert_pins_lem row.id changes rows (record w { db = insert_release row w.db })
                      u q in
                  elim (Result-cases (load_release row.id pinned).0) [
                    | inl (x, f) ↦ cc (rw (e, runs, f) at h)
                    | inr (loaded, f) ↦
                        let same : (loaded, true) ≡ (response, created) =
                          eq_of_ok (rw (e, runs, f) at h) in
                        (
                          sym (ap (λ p. p.1) same),
                          e,
                          rw (e, runs, f) (load_release-reads row.id pinned),
                          f ∙ ap (λ p. ok p.0) same,
                        )
                  ]
            ]
    ]

module _ (request : CutRequest) (id : String) (now : ℕ) (product : Product) (w : World)
    (response : ReleaseResponse) (created : Bool) where
  abbrev latest : Option Release
  latest = head_of (latest_releases request.product_id w.db)

  cut_rows-CutSteps :
      active_rows request.product_id w.db ≢ []
      → (cut_rows request id now product (active_rows request.product_id w.db) w).0
        ≡ ok (response, created)
      → (created ≡ true)
        × CutSteps request id now product w
            (cut_rows request id now product (active_rows request.product_id w.db) w).1
            response
  unfolding cut_rows
  cut_rows-CutSteps not_empty h =
      elim (Option-cases (
        derive request.product_id product.bump_policy (active_rows request.product_id w.db) latest
          w.db)) [
            | inl e ↦ cc (rw e at h)
            | inr (derived, e) ↦
                elim (next_version-cases (current_version latest product) derived.bump_level w) [
                  | inl (x, f) ↦ cc (rw (e, f) at h)
                  | inr (version, bumps, f) ↦
                      let (is_new, fresh, stored, loaded) =
                        store_cut_lem (release_of request id now version derived)
                          derived.change_by_component (active_rows request.product_id w.db) w
                          response created (rw (e, f) at h) in
                      (
                        is_new,
                        rw (e, f)
                            (record {
                              derived = derived;
                              version = version;
                              derives = e;
                              bumps = bumps;
                              not_empty = not_empty;
                              stored = stored;
                              fresh = fresh;
                              loaded =
                                  subst (λ after. (load_release id after).0 ≡ ok response)
                                    (sym stored) loaded;
                            }),
                      )
                ]
          ]

  past_test :
      {A B : Type 0} (xs : List A) (m : Action B) (b : B)
      → (continue (first_or conflict xs w).0 (λ _. m) (first_or conflict xs w).1).0 ≡ ok b
      → (xs ≢ []) × (continue (first_or conflict xs w).0 (λ _. m) (first_or conflict xs w).1 ≡ m w)
  past_test [] m b h = cc
  past_test (x ∷ xs) m b h = (λ q. cc, refl)

  pub cut_fresh-CutSteps :
      (cut_fresh request id now product w).0 ≡ ok (response, created)
      → (created ≡ true)
        × CutSteps request id now product w (cut_fresh request id now product w).1 response
  unfolding cut_fresh
  cut_fresh-CutSteps h =
      let rows = active_rows request.product_id w.db in
      let (not_empty, same) =
        past_test rows (cut_rows request id now product rows) (response, created) h in
      rw same (cut_rows-CutSteps not_empty (rw same at h))
