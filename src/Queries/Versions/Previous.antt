-- ===== src/Queries/Versions/Previous.antt =====
-- Which version a rollback returns to (app/queries/versions/rollback_version_query.py).
use lavs_core.Prelude.{
  All-In, ◌≡◌, refl, true, false, List, ◌∷◌, arith, select, In, inl, inr, sort_by, sort_by-IsFirst,
  In-sort_by, In-to_sort_by, subst, IsFirst,
}
use lavs_core.Database.Tables.{Version, Database}
use lavs_core.Database.Rows.{In-select, In-to_select}
use lavs_core.Queries.Versions.{below, descending, is_previous, previous_versions}

below_asym : (v w : Version) → below v w ≡ true → below w v ≡ false
below_asym v w h = ground arith

below_negative : (v w u : Version) → below w v ≡ true → below w u ≡ false → below v u ≡ false
below_negative v w u h k = ground arith

-- If there is a version to return to, the one that a rollback takes is a stored version of the
-- same component, other than the target, not itself rolled back, with a smaller number; and no
-- other such version has a greater number.
pub previous_versions-greatest :
    (target previous : Version) (rest : List Version) (db : Database)
    → previous_versions target db ≡ previous ∷ rest
    → In previous db.versions
      × (is_previous target previous ≡ true)
      × ((v : Version) → In v db.versions → is_previous target v ≡ true → below previous v ≡ false)
unfolding previous_versions
previous_versions-greatest target previous rest db h =
    let candidates = select (is_previous target) db.versions in
    let there : In previous (sort_by descending candidates) = rw h (inl refl) in
    let (stored, passes) =
      In-select (is_previous target) previous db.versions
        (In-sort_by descending previous candidates there) in
    let first : IsFirst descending (previous ∷ rest) = subst (IsFirst descending) h (
      sort_by-IsFirst descending (λ v u. below_asym u v) (λ v u t e k. below_negative v u t e k)
        candidates) in
    (
      stored,
      passes,
      λ v m p. greatest v first (
          subst (In v) h (
            In-to_sort_by descending v candidates
              (In-to_select (is_previous target) v db.versions m p))),
    )
  where
    greatest :
        (v : Version)
        → IsFirst descending (previous ∷ rest)
        → In v (previous ∷ rest)
        → below previous v ≡ false
    greatest v first (inl e) = rw e ground arith
    greatest v first (inr m) = All-In (λ z. descending z previous ≡ false) rest first v m
