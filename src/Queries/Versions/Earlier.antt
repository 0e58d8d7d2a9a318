-- ===== src/Queries/Versions/Earlier.antt =====
-- What rolling a version back does, by the numbers and the statuses of the stored versions.
use lavs_core.Prelude.{
  ◌≡◌, ◌≢◌, ◌<◌, ◌⊎◌, refl, ap, ◌∙◌, true, false, List, [], ◌∷◌, map, str_eq, eq_iff, arith, ◌&&◌,
  subst, In-to_sort_by, any, select, ok, err, In, inl, inr, if◌then◌else◌, List-cases, Bool-cases,
}
use lavs_core.Database.Tables.{
  VersionStatus, active, superseded, rolled_back, Version, World, conflict,
}
use lavs_core.Database.Statements.{same_status}
use lavs_core.Database.Rows.{Unique, In-to_select, eq_of_key}
use lavs_core.Queries.Versions.{is_previous, below, descending, previous_versions, rollback_version}
use lavs_core.Queries.Versions.Previous.{previous_versions-greatest}
use lavs_core.Queries.Versions.Statuses.{version_id, after, reactivate-rows}
use lavs_core.Queries.Versions.Rollback.{rollback_to, rollback_version-alone}

-- The number of the first is smaller.
abbrev pub IsBelow : Version → Version → Type 0
IsBelow v w =
    (v.major < w.major)
    ⊎ ((v.major ≡ w.major) × ((v.minor < w.minor) ⊎ ((v.minor ≡ w.minor) × (v.patch < w.patch))))

-- A version that a rollback may return to.
abbrev pub IsEarlier : Version → Version → Type 0
IsEarlier target v =
    (v.component_id ≡ target.component_id) × (v.status ≢ rolled_back) × IsBelow v target

-- The status that is left by a rollback to the second version.
abbrev pub replaced : VersionStatus → VersionStatus
replaced active = superseded
replaced superseded = superseded
replaced rolled_back = rolled_back

abbrev pub settled : Version → Version → Version → Version
settled target previous v =
    if str_eq v.id previous.id
    then record v { status = active }
    else if str_eq v.id target.id
    then record v { status = rolled_back }
    else if str_eq v.component_id target.component_id
    then record v { status = replaced v.status }
    else v

IsBelow-of_below : (v w : Version) → below v w ≡ true → IsBelow v w
IsBelow-of_below v w h = ground arith

below-of_IsBelow : (v w : Version) → IsBelow v w → below v w ≡ true
below-of_IsBelow v w h = ground arith

IsEarlier-of_previous : (target v : Version) → is_previous target v ≡ true → IsEarlier target v
unfolding same_status
IsEarlier-of_previous target v h = (
  (eq_iff v.component_id target.component_id).0 (ground arith),
  λ e. ground arith,
  IsBelow-of_below v target (ground arith),
)

not_rolled_back : (s : VersionStatus) → s ≢ rolled_back → same_status s rolled_back ≡ false
unfolding same_status
not_rolled_back active h = refl
not_rolled_back superseded h = refl
not_rolled_back rolled_back h = absurd (h refl)

settled_lem : (target previous v : Version) → after target previous v ≡ settled target previous v
unfolding same_status
settled_lem target previous v = by_status v.status
  where
    by_status :
        (s : VersionStatus)
        → after target previous (record v { status = s })
          ≡ settled target previous (record v { status = s })
    by_status active = elim (Bool-cases (str_eq v.id previous.id)) [
      | inl a ↦ elim (Bool-cases (str_eq v.id target.id)) [
        | inl b ↦ rw (a, b) (ground arith)
        | inr b ↦ ground arith
      ]
      | inr a ↦ ground arith
    ]
    by_status superseded = ground arith
    by_status rolled_back = ground arith

maps_settled :
    (target previous : Version) (vs : List Version)
    → map (after target previous) vs ≡ map (settled target previous) vs
maps_settled target previous [] = refl
maps_settled target previous (v ∷ vs) =
    cc (settled_lem target previous v, maps_settled target previous vs)

module _ (target : Version) (w : World) where
  is_previous-of_IsEarlier :
      (v : Version)
      → Unique version_id w.db.versions
      → In target w.db.versions
      → In v w.db.versions
      → IsEarlier target v
      → is_previous target v ≡ true
  is_previous-of_IsEarlier v unique stored m (component, status, number) =
      elim (Bool-cases (str_eq v.id target.id)) [
        | inl same ↦
            let e : v ≡ target =
              eq_of_key version_id v target w.db.versions unique m stored
                ((eq_iff v.id target.id).0 same) in
            absurd (irreflexive (subst (λ x. IsBelow x target) e number))
        | inr other ↦ ground (
          arith,
          (eq_iff v.component_id target.component_id).1 component,
          not_rolled_back v.status status,
          below-of_IsBelow v target number,
        )
      ]
    where
      irreflexive : IsBelow target target → ⊥
      irreflexive h = ground arith

  nothing :
      Unique version_id w.db.versions
      → In target w.db.versions
      → (v : Version) → In v w.db.versions
      → IsEarlier target v
      → previous_versions target w.db ≡ []
      → ⊥
  unfolding previous_versions
  nothing unique stored v m earlier alone = rw alone at (
      In-to_sort_by descending v (select (is_previous target) w.db.versions) (
        In-to_select (is_previous target) v w.db.versions m
          (is_previous-of_IsEarlier v unique stored m earlier)))

  -- What a rollback to the second version leaves.
  abbrev pub IsRolledBack : Version → Type 0
  IsRolledBack previous =
      ((rollback_version target.id w).0 ≡ ok (record previous { status = active }))
      × ((rollback_version target.id w).1.db
          ≡ record w.db { versions = map (settled target previous) w.db.versions })
      × (select (λ v. str_eq v.component_id target.component_id && same_status v.status active)
            (rollback_version target.id w).1.db.versions
          ≡ record previous { status = active } ∷ [])

  -- The two outcomes of a rollback.
  abbrev pub Rollback : Type 0
  Rollback =
      ((previous : Version) × In previous w.db.versions
        × IsEarlier target previous
        × ((v : Version) → In v w.db.versions → IsEarlier target v → IsBelow previous v → ⊥)
        × IsRolledBack previous)
      ⊎ (((v : Version) → In v w.db.versions → IsEarlier target v → ⊥)
          × (rollback_version target.id w ≡ (err conflict, w)))

  -- Where identifiers are unique, and the target and its component are stored: if a stored version
  -- of the same component has a smaller number than the target and is not rolled back, rolling the
  -- target back returns one with the greatest such number, now active; its component has then no
  -- other active version, the target is rolled back, and nothing else in the database changes. If
  -- there is none, the rollback is refused and nothing changes.
  pub rollback_version_lem :
      Unique version_id w.db.versions
      → In target w.db.versions
      → any (λ c. str_eq c.id target.component_id) w.db.components ≡ true
      → Rollback
  rollback_version_lem unique stored known = elim (List-cases (previous_versions target w.db)) [
    | inl alone ↦ inr (
      λ v m earlier. nothing unique stored v m earlier alone,
      rollback_version-alone target w unique stored alone,
    )
    | inr (previous, rest, chosen) ↦
        let (there, passes, greatest) =
          previous_versions-greatest target previous rest w.db chosen in
        let (returns, keeps, only) =
          rollback_to target previous rest w unique stored known chosen in
        inl (
          previous,
          there,
          IsEarlier-of_previous target previous passes,
          λ v m earlier number. cc (
            greatest v m (is_previous-of_IsEarlier v unique stored m earlier),
            below-of_IsBelow previous v number,
          ),
          (
            returns,
            keeps
                ∙ ap (λ (vs : List Version). record w.db { versions = vs })
                    (reactivate-rows target previous w.db
                      ∙ maps_settled target previous w.db.versions),
            only,
          ),
        )
  ]
