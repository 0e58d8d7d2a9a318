-- ===== src/Queries/Versions/Rollback.antt =====
-- What rolling a version back does.
use lavs_core.Queries.Versions.Previous.{previous_versions-greatest}
use lavs_core.Queries.Versions.Statuses.{
  version_id, after, is_active_after, reactivate-rows, after-id, after_previous,
}
use lavs_core.Prelude.{
  ◌≡◌, refl, ap, sym, ◌∙◌, true, false, List, [], ◌∷◌, map, String, str_eq, eq_iff, arith, any,
  select, ok, err, In, inl, inr, subst, Option-cases,
}
use lavs_core.Database.Tables.{active, Component, Version, Database, World, not_found, conflict}
use lavs_core.Database.Rows.{
  any-select, select_of_absent, select-map, select_congr, Unique, select-key, eq_of_key,
}
use lavs_core.Queries.Versions.{
  is_active_of, versions_with_id, previous_versions, emit_rollback, reactivate, rollback_version,
}

module _ (target previous : Version) (rest : List Version) (w : World) where
  module _ (unique : Unique version_id w.db.versions) (stored : In target w.db.versions)
      (chosen : previous_versions target w.db ≡ previous ∷ rest) where
    previous_stored : In previous w.db.versions
    previous_stored = (previous_versions-greatest target previous rest w.db chosen).0

    previous_component : str_eq previous.component_id target.component_id ≡ true
    previous_component =
        let passes = (previous_versions-greatest target previous rest w.db chosen).1 in ground arith

    pub previous_component_of :
        (v : Version)
        → In v w.db.versions
        → str_eq v.id previous.id ≡ true
        → str_eq v.component_id target.component_id ≡ true
    previous_component_of v m e =
        subst (λ u. str_eq u.component_id target.component_id ≡ true)
          (sym (
            eq_of_key version_id v previous w.db.versions unique m previous_stored
              ((eq_iff v.id previous.id).0 e)))
          previous_component

    reactivated_rows :
        versions_with_id previous.id (reactivate target previous w.db)
        ≡ record previous { status = active } ∷ []
    reactivated_rows =
        ap (select (λ v. str_eq v.id previous.id)) (reactivate-rows target previous w.db)
        ∙ (select-map (λ v. str_eq v.id previous.id) (after target previous) w.db.versions
            ∙ (ap (map (after target previous)) (
                  select_congr (λ v. str_eq (after target previous v).id previous.id)
                    (λ v. str_eq v.id previous.id) w.db.versions
                    (λ v m. ap (λ i. str_eq i previous.id) (after-id target previous v))
                  ∙ select-key version_id previous w.db.versions unique previous_stored)
                ∙ ap (λ v. v ∷ []) (after_previous target previous)))

    pub only_active :
        select (is_active_of target.component_id) (reactivate target previous w.db).versions
        ≡ record previous { status = active } ∷ []
    only_active =
        ap (select (is_active_of target.component_id)) (reactivate-rows target previous w.db)
        ∙ (select-map (is_active_of target.component_id) (after target previous) w.db.versions
            ∙ (ap (map (after target previous)) (
                  select_congr (λ v. is_active_of target.component_id (after target previous v))
                    (λ v. str_eq v.id previous.id) w.db.versions
                    (λ v m. is_active_after target previous v (previous_component_of v m))
                  ∙ select-key version_id previous w.db.versions unique previous_stored)
                ∙ ap (λ v. v ∷ []) (after_previous target previous)))

    emit_rollback-known :
        (db : Database)
        → any (λ c. str_eq c.id target.component_id) db.components ≡ true
        → (v : Version)
        → ((emit_rollback target v (record w { db = db })).0 ≡ ok tt)
          × ((emit_rollback target v (record w { db = db })).1.db ≡ db)
    unfolding emit_rollback
    emit_rollback-known db known v =
        let (component, others, found) =
          any-select (λ (c : Component). str_eq c.id target.component_id) db.components known in
        elim (Option-cases w.event_bus) [
          | inl e ↦ rw e (refl, refl)
          | inr (bus, e) ↦ rw (e, found) (refl, refl)
        ]

  -- Where identifiers are unique and the component is stored, rolling back a stored version that
  -- has an earlier one to return to returns that one, now active; it is then the only active
  -- version of the component, and the database is changed by the three updates of statuses alone.
  pub rollback_to :
      Unique version_id w.db.versions
      → In target w.db.versions
      → any (λ c. str_eq c.id target.component_id) w.db.components ≡ true
      → previous_versions target w.db ≡ previous ∷ rest
      → ((rollback_version target.id w).0 ≡ ok (record previous { status = active }))
        × ((rollback_version target.id w).1.db ≡ reactivate target previous w.db)
        × (select (is_active_of target.component_id) (rollback_version target.id w).1.db.versions
            ≡ record previous { status = active } ∷ [])
  unfolding rollback_version
  rollback_to unique stored known chosen =
      let (returns, keeps) =
        emit_rollback-known unique stored chosen (reactivate target previous w.db) known
          (record previous { status = active }) in
      rw
        (
          select-key version_id target w.db.versions unique stored,
          chosen,
          reactivated_rows unique stored chosen,
          returns,
          keeps,
        )
        (refl, refl, only_active unique stored chosen)

-- An unknown version is refused, and nothing changes.
pub rollback_version-missing :
    (id : String) (w : World)
    → any (λ v. str_eq v.id id) w.db.versions ≡ false
    → rollback_version id w ≡ (err not_found, w)
unfolding rollback_version
rollback_version-missing id w absent =
    rw (select_of_absent (λ (v : Version). str_eq v.id id) w.db.versions absent) refl

-- A version without an earlier one to return to is refused, and nothing changes.
pub rollback_version-alone :
    (target : Version) (w : World)
    → Unique version_id w.db.versions
    → In target w.db.versions
    → previous_versions target w.db ≡ []
    → rollback_version target.id w ≡ (err conflict, w)
unfolding rollback_version
rollback_version-alone target w unique stored alone =
    rw (select-key version_id target w.db.versions unique stored, alone) refl
