-- ===== src/Queries/ReleasesRead/Listing.antt =====
-- The ledger of a product, and a release on its own.
use lavs_core.Prelude.{
  ◌≡◌, ◌≢◌, refl, sym, ◌∙◌, subst, true, false, List, [], ◌∷◌, map, String, str_eq, eq_iff, arith,
  select, In, In-map, In-map_back, In-sort_by, All, All_of_In, List-cases, Bool-cases, inl, inr,
  ◌⊎◌, IsSorted, IsSorted-sort_by, sort_by-Perm, ok, err,
}
use mathlib.Core.List.{Perm}
use lavs_core.Database.Tables.{Product, Release, ReleaseResponse, World, not_found}
use lavs_core.Database.Rows.{Unique, select-key, In-select}
use lavs_core.Database.Statements.{str_ltb}
use lavs_core.Database.StringOrder.{str_ltb_asym, str_ltb_weak, str_ltb_total}
use lavs_core.Queries.Dependencies.{products_with_id}
use lavs_core.Queries.Releases.{latest_releases, newer}
use lavs_core.Queries.ReleasesRead.{
  read, manifest_of, to_model, get_release_by_id, list_releases_by_product,
}
use lavs_core.Queries.ReleasesRead.Grouping.{own_manifest, manifest_of-read}

newer_asym : (r s : Release) → newer r s ≡ true → newer s r ≡ false
newer_asym r s h = ground (arith, str_ltb_asym s.id r.id)

-- A text that another is not before, and is before a third, is before it too.
str_ltb_below : (r s t : String) → str_ltb s r ≡ true → str_ltb s t ≡ false → str_ltb t r ≡ true
str_ltb_below r s t h k = elim (Bool-cases (str_eq s t)) [
  | inl e ↦ subst (λ u. str_ltb u r ≡ true) ((eq_iff s t).0 e) h
  | inr n ↦ str_ltb_weak t s r (str_ltb_total s t k n) (str_ltb_asym s r h)
]

newer_weak : (r s t : Release) → newer r s ≡ true → newer t s ≡ false → newer r t ≡ true
newer_weak r s t h k = ground (arith, str_ltb_below r.id s.id t.id)

module _ (w : World) where
  get_release_by_id_lem :
      (r : Release)
      → Unique (λ (x : Release). x.id) w.db.releases
      → In r w.db.releases
      → get_release_by_id r.id w ≡ (ok (to_model r (own_manifest r.id w.db)), w)
  unfolding get_release_by_id
  get_release_by_id_lem r unique stored =
      rw (select-key (λ (x : Release). x.id) r w.db.releases unique stored, get_release_by_id)
        (rw (manifest_of-read r.id (r.id ∷ []) w.db (inl refl)) refl)

  -- The entries of the ledger.
  abbrev pub entries : List Release → List ReleaseResponse
  entries rows = map (λ r. to_model r (manifest_of (read (map (λ r. r.id) rows) w.db) r.id)) rows

  released :
      (rows : List Release) (f : Release → ReleaseResponse)
      → ((r : Release) → (f r).release ≡ r)
      → map (λ m. m.release) (map f rows) ≡ rows
  released [] f e = refl
  released (r ∷ rows) f e = cc (e r, released rows f e)

  list_releases_by_product_lem :
      (product_id : String) (p : Product) (ps : List Product)
      → products_with_id product_id w.db ≡ p ∷ ps
      → list_releases_by_product product_id w ≡ (ok (entries (latest_releases product_id w.db)), w)
  unfolding list_releases_by_product
  list_releases_by_product_lem product_id p ps known = rw (known, list_releases_by_product) refl

  list_releases_by_product-missing :
      (product_id : String)
      → products_with_id product_id w.db ≡ []
      → list_releases_by_product product_id w ≡ (err not_found, w)
  unfolding list_releases_by_product
  list_releases_by_product-missing product_id none_there =
      rw (none_there, list_releases_by_product) refl

  pub latest_releases-IsSorted :
      (product_id : String) → IsSorted newer (latest_releases product_id w.db)
  unfolding latest_releases
  latest_releases-IsSorted product_id =
      IsSorted-sort_by newer newer_asym newer_weak
        (select (λ r. str_eq r.product_id product_id) w.db.releases)

  pub latest_releases-Perm :
      (product_id : String)
      → Perm
          (latest_releases product_id w.db)
          (select (λ r. str_eq r.product_id product_id) w.db.releases)
  unfolding latest_releases
  latest_releases-Perm product_id =
      sort_by-Perm newer (select (λ r. str_eq r.product_id product_id) w.db.releases)

  pub latest_releases-stored :
      (product_id : String) (r : Release)
      → In r (latest_releases product_id w.db)
      → In r w.db.releases
  unfolding latest_releases
  latest_releases-stored product_id r m =
      (In-select (λ r. str_eq r.product_id product_id) r w.db.releases
        (In-sort_by newer r (select (λ r. str_eq r.product_id product_id) w.db.releases) m)).0

  entry-get_release_by_id :
      (product_id : String) (m : ReleaseResponse)
      → Unique (λ (x : Release). x.id) w.db.releases
      → In m (entries (latest_releases product_id w.db))
      → get_release_by_id m.release.id w ≡ (ok m, w)
  entry-get_release_by_id product_id m unique listed =
      let rows = latest_releases product_id w.db in
      let (r, there, e) =
        In-map_back (λ r. to_model r (manifest_of (read (map (λ r. r.id) rows) w.db) r.id)) m rows
          listed in
      let own =
        manifest_of-read r.id (map (λ r. r.id) rows) w.db (In-map (λ r. r.id) r rows there) in
      subst (λ (x : ReleaseResponse). get_release_by_id x.release.id w ≡ (ok x, w)) (sym e)
        (get_release_by_id_lem r unique (latest_releases-stored product_id r there) ∙ rw own refl)

  -- The two outcomes of listing.
  abbrev pub Listing : String → Type 0
  Listing product_id =
      ((products_with_id product_id w.db ≡ [])
        × (list_releases_by_product product_id w ≡ (err not_found, w)))
      ⊎ ((rs : List ReleaseResponse) × (products_with_id product_id w.db ≢ [])
          × (list_releases_by_product product_id w ≡ (ok rs, w))
          × Perm (map (λ m. m.release) rs)
              (select (λ r. str_eq r.product_id product_id) w.db.releases)
          × IsSorted newer (map (λ m. m.release) rs)
          × All (λ m. get_release_by_id m.release.id w ≡ (ok m, w)) rs)

  -- Where the identifiers of releases are unique, listing the releases of a product changes nothing,
  -- and either the product is unknown and the answer is an error, or the product is stored and the
  -- answer has an entry for each of its releases, newest first and by descending identifier among
  -- those of one time, and every entry is what reading that release on its own returns.
  pub list_releases_cases :
      (product_id : String) → Unique (λ (x : Release). x.id) w.db.releases → Listing product_id
  list_releases_cases product_id unique = elim (List-cases (products_with_id product_id w.db)) [
    | inl unknown ↦ inl (unknown, list_releases_by_product-missing product_id unknown)
    | inr (p, ps, known) ↦
        let rows = latest_releases product_id w.db in
        let same : map (λ m. m.release) (entries rows) ≡ rows =
          released rows (λ r. to_model r (manifest_of (read (map (λ r. r.id) rows) w.db) r.id))
            (λ r. refl) in
        inr (
          entries rows,
          λ e. cc (e, known),
          list_releases_by_product_lem product_id p ps known,
          rw same (latest_releases-Perm product_id),
          subst (IsSorted newer) (sym same) (latest_releases-IsSorted product_id),
          All_of_In (λ m. get_release_by_id m.release.id w ≡ (ok m, w)) (entries rows)
              (λ m. entry-get_release_by_id product_id m unique),
        )
  ]
