-- ===== src/Queries/Releases/Immutable.antt =====
-- A release that was cut reads the same whatever happens to the versions afterwards.
use mathlib.Core.List.{append-nil}
use lavs_core.Queries.Versions.Statuses.{version_id}
use lavs_core.Prelude.{
  All-In, ◌≡◌, refl, ap, sym, ◌∙◌, subst, Bool, true, false, ◌||◌, List, [], ◌∷◌, ◌++◌, map, String,
  str_eq, eq_iff, arith, any, select, select-append, In, inl, inr, ◌⊎◌, Bool-cases, List-cases, All,
  any-append, sort_by,
}
use lavs_core.Database.Tables.{Component, Version, ReleaseComponent, Database, World}
use lavs_core.Database.Rows.{any-select, Unique, Unique-map, select_of_absent, In-select}
use lavs_core.Database.Statements.{str_ltb}
use lavs_core.Queries.Versions.{create_version, rollback_version, previous_versions}
use lavs_core.Queries.Versions.Create.{
  create_version_lem, create_version-missing, create_version-taken,
}
use lavs_core.Queries.Versions.Rollback.{
  rollback_to, rollback_version-missing, rollback_version-alone,
}
use lavs_core.Queries.Versions.Ledger.{IsLedger, HasComponent}
use lavs_core.Queries.Versions.History.{
  Leads, here, then_create, then_rollback, Leads-IsLedger, Leads-history, facts,
}
use lavs_core.Queries.Releases.{
  to_release_component, join_versions, join_components, join_manifest, release_manifest,
}

-- Every pinned version is stored.
abbrev pub IsPinned : Database → Type 0
IsPinned db =
    All (λ rc. any (λ v. str_eq v.id rc.version_id) db.versions ≡ true) db.release_components

-- The tables other than `versions`.
abbrev others : Database → Database
others db = record db { versions = [] }

create_version-others :
    (row : Version) (w : World) → others (create_version row w).1.db ≡ others w.db
create_version-others row w =
    elim (Bool-cases (any (λ c. str_eq c.id row.component_id) w.db.components)) [
      | inr unknown ↦ rw (create_version-missing row w unknown) refl
      | inl known ↦ elim (Bool-cases (any (λ v. str_eq v.id row.id) w.db.versions)) [
        | inl used ↦ rw (create_version-taken row w known used) refl
        | inr fresh ↦ rw ((create_version_lem row w known fresh).1) refl
      ]
    ]

rollback_version-others :
    (id : String) (w : World) → IsLedger w.db → others (rollback_version id w).1.db ≡ others w.db
rollback_version-others id w l = elim (Bool-cases (any (λ v. str_eq v.id id) w.db.versions)) [
  | inr absent ↦ rw (rollback_version-missing id w absent) refl
  | inl present ↦
      let (target, rest, found) =
        any-select (λ (v : Version). str_eq v.id id) w.db.versions present in
      let (stored, named) =
        In-select (λ v. str_eq v.id id) target w.db.versions (rw found (inl refl)) in
      subst (λ i. others (rollback_version i w).1.db ≡ others w.db) ((eq_iff target.id id).0 named)
        (outcome target stored (List-cases (previous_versions target w.db)))
]
  where
    outcome :
        (target : Version)
        → In target w.db.versions
        → (previous_versions target w.db ≡ [])
          ⊎ ((previous : Version) × (rest : List Version) × (previous_versions target w.db
                ≡ previous ∷ rest))
        → others (rollback_version target.id w).1.db ≡ others w.db
    outcome target stored (inl alone) =
        rw (rollback_version-alone target w l.unique stored alone) refl
    outcome target stored (inr (previous, rest, chosen)) =
        rw
          ((rollback_to target previous rest w l.unique stored
            (All-In (HasComponent w.db.components) w.db.versions l.known target stored) chosen).1)
          refl

Leads-others : (w u : World) → Leads w u → IsLedger w.db → others u.db ≡ others w.db
Leads-others w u (here _) l = refl
Leads-others w u (then_create _ v row s) l = create_version-others row v ∙ Leads-others w v s l
Leads-others w u (then_rollback _ v id s) l =
    rollback_version-others id v (Leads-IsLedger w v s l) ∙ Leads-others w v s l

-- A stored identifier is not that of a row behind.
later_absent :
    (xs ys : List Version) (k : String)
    → Unique version_id (xs ++ ys)
    → any (λ v. str_eq v.id k) xs ≡ true
    → any (λ v. str_eq v.id k) ys ≡ false
later_absent [] ys k u h = cc
later_absent (x ∷ xs) ys k u h = elim (Bool-cases (str_eq x.id k)) [
  | inl e ↦
      subst (λ i. any (λ v. str_eq v.id i) ys ≡ false) ((eq_iff x.id k).0 e)
        (second (any (λ v. str_eq v.id x.id) xs) (any (λ v. str_eq v.id x.id) ys)
          (sym (any-append (λ v. str_eq v.id x.id) xs ys) ∙ u.0))
  | inr e ↦ later_absent xs ys k u.1 (rw e at h)
]
  where
    second : (a b : Bool) → (a || b) ≡ false → b ≡ false
    second a b q = ground arith

module _ (rc : ReleaseComponent) (c : Component) where
  join_versions-facts :
      (vs : List Version) → join_versions rc c (map facts vs) ≡ join_versions rc c vs
  join_versions-facts [] = refl
  join_versions-facts (v ∷ vs) = elim (Bool-cases (str_eq v.id rc.version_id)) [
    | inl e ↦ rw e (ap (λ rs. to_release_component rc c v ∷ rs) (join_versions-facts vs))
    | inr e ↦ rw e (join_versions-facts vs)
  ]

  join_versions-later :
      (us vs added : List Version)
      → map facts us ≡ map facts vs ++ added
      → any (λ v. str_eq v.id rc.version_id) added ≡ false
      → join_versions rc c us ≡ join_versions rc c vs
  join_versions-later us vs added e absent =
      sym (join_versions-facts us)
      ∙ (ap (join_versions rc c) e
          ∙ (ap (map (to_release_component rc c)) (
                select-append (λ v. str_eq v.id rc.version_id) (map facts vs) added
                ∙ (ap (λ xs. select (λ v. str_eq v.id rc.version_id) (map facts vs) ++ xs)
                      (select_of_absent (λ (v : Version). str_eq v.id rc.version_id) added absent)
                    ∙ append-nil (select (λ v. str_eq v.id rc.version_id) (map facts vs))))
              ∙ join_versions-facts vs))

any-facts :
    (k : String) (vs : List Version)
    → any (λ v. str_eq v.id k) (map facts vs) ≡ any (λ v. str_eq v.id k) vs
any-facts k [] = refl
any-facts k (v ∷ vs) = ap (λ b. str_eq v.id k || b) (any-facts k vs)

module _ (us vs added : List Version) (e : map facts us ≡ map facts vs ++ added)
    (unique : Unique version_id us) where
  later : (k : String) → any (λ v. str_eq v.id k) vs ≡ true → any (λ v. str_eq v.id k) added ≡ false
  later k h =
      later_absent (map facts vs) added k
        (subst (Unique version_id) e (Unique-map version_id facts us (λ v. refl) unique))
        (any-facts k vs ∙ h)

  join_components-later :
      (rc : ReleaseComponent) (cs : List Component)
      → any (λ v. str_eq v.id rc.version_id) vs ≡ true
      → join_components rc cs us ≡ join_components rc cs vs
  join_components-later rc [] h = refl
  join_components-later rc (c ∷ cs) h = cc (
    join_versions-later rc c us vs added e (later rc.version_id h),
    join_components-later rc cs h,
  )

  join_manifest-later :
      (rcs : List ReleaseComponent) (p : ReleaseComponent → Bool) (cs : List Component)
      → All (λ rc. any (λ v. str_eq v.id rc.version_id) vs ≡ true) rcs
      → join_manifest (select p rcs) cs us ≡ join_manifest (select p rcs) cs vs
  join_manifest-later [] p cs h = refl
  join_manifest-later (rc ∷ rcs) p cs h = elim (Bool-cases (p rc)) [
    | inl q ↦ rw q (cc (join_components-later rc cs h.0, join_manifest-later rcs p cs h.1))
    | inr q ↦ rw q (join_manifest-later rcs p cs h.1)
  ]

-- A release is immutable: whatever versions are created and rolled back, its manifest reads the
-- same afterwards, if the ledger is kept at the start and the versions that releases pin are
-- stored then.
pub release_manifest-Leads :
    (release_id : String) (w u : World)
    → Leads w u
    → IsLedger w.db
    → IsPinned w.db
    → release_manifest release_id u.db ≡ release_manifest release_id w.db
unfolding release_manifest
release_manifest-Leads release_id w u s l pinned =
    let (added, e) = Leads-history w u s l in
    let same = Leads-others w u s l in
    ap (sort_by (λ r t. str_ltb r.component_id t.component_id)) (
      ap
        (λ db.
          join_manifest (select (λ rc. str_eq rc.release_id release_id) db.release_components)
            db.components u.db.versions)
        same
      ∙ join_manifest-later u.db.versions w.db.versions added e (Leads-IsLedger w u s l).unique
          w.db.release_components (λ rc. str_eq rc.release_id release_id) w.db.components pinned)
