-- ===== src/Queries/Releases/Cut/Latest.antt =====
-- The latest release of a product.
use lavs_core.Prelude.{
  ◌≡◌, ◌<◌, ◌⊎◌, refl, true, false, Option, none, some, List, ◌∷◌, String, str_eq, eq_iff, arith,
  select, In, inl, inr, All-In, List-cases, IsSorted, subst, In-to_sort_by,
}
use lavs_core.Database.Tables.{Release, Database, World}
use lavs_core.Database.Statements.{str_ltb}
use lavs_core.Database.Rows.{In-select, In-to_select}
use lavs_core.Database.StringOrder.{str_ltb_refl}
use lavs_core.Queries.Releases.{latest_releases, head_of, newer}
use lavs_core.Queries.ReleasesRead.Listing.{latest_releases-IsSorted}
use lavs_core.Prelude.{In-sort_by}

-- By the time of the cut, and then by the identifier.
abbrev pub IsNewer : Release → Release → Type 0
IsNewer s r =
    (r.created_at < s.created_at) ⊎ ((r.created_at ≡ s.created_at) × (str_ltb r.id s.id ≡ true))

-- A stored release of the product that none is newer than, or that there is none.
abbrev pub IsLatest : String → Database → Option Release → Type 0
IsLatest product_id db none = (r : Release) → In r db.releases → r.product_id ≡ product_id → ⊥
IsLatest product_id db (some r) =
    In r db.releases
    × (r.product_id ≡ product_id)
    × ((s : Release) → In s db.releases → s.product_id ≡ product_id → IsNewer s r → ⊥)

newer-of_IsNewer : (s r : Release) → IsNewer s r → newer s r ≡ true
newer-of_IsNewer s r h = ground arith

module _ (product_id : String) (w : World) where
  listed :
      (r : Release)
      → In r (latest_releases product_id w.db)
      → In r w.db.releases × (r.product_id ≡ product_id)
  unfolding latest_releases
  listed r m =
      let (there, mine) =
        In-select (λ r. str_eq r.product_id product_id) r w.db.releases
          (In-sort_by newer r (select (λ r. str_eq r.product_id product_id) w.db.releases) m) in
      (there, (eq_iff r.product_id product_id).0 mine)

  to_listed :
      (r : Release)
      → In r w.db.releases
      → r.product_id ≡ product_id
      → In r (latest_releases product_id w.db)
  unfolding latest_releases
  to_listed r m mine =
      In-to_sort_by newer r (select (λ r. str_eq r.product_id product_id) w.db.releases) (
        In-to_select (λ r. str_eq r.product_id product_id) r w.db.releases m
          ((eq_iff r.product_id product_id).1 mine))

  first_newest :
      (r : Release) (rs : List Release) (s : Release)
      → IsSorted newer (r ∷ rs)
      → In s (r ∷ rs)
      → IsNewer s r
      → ⊥
  first_newest r rs s (first, sorted) (inl e) h =
      let n : IsNewer r r = subst (λ x. IsNewer x r) e h in ground (arith, str_ltb_refl r.id)
  first_newest r rs s (first, sorted) (inr m) h =
      cc (All-In (λ z. newer z r ≡ false) rs first s m, newer-of_IsNewer s r h)

  pub latest-IsLatest : IsLatest product_id w.db (head_of (latest_releases product_id w.db))
  latest-IsLatest = elim (List-cases (latest_releases product_id w.db)) [
    | inl empty ↦ rw empty (λ r m mine. rw empty at (to_listed r m mine))
    | inr (r, rs, found) ↦ rw found (
        let (there, mine) = listed r (rw found (inl refl)) in
        (
          there,
          mine,
          λ s m of_product.
              first_newest r rs s
                (subst (IsSorted newer) found (latest_releases-IsSorted w product_id))
                (subst (In s) found (to_listed s m of_product)),
        ))
  ]
