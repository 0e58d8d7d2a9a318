-- ===== src/Queries/Versions/Create.antt =====
-- What creating a version does.
use lavs_core.Prelude.{
  ◌≡◌, refl, ◌∙◌, true, false, List, [], ◌∷◌, String, str_eq, eq_iff, arith, if◌then◌else◌, any,
  select, select-append, ok, err,
}
use lavs_core.Database.Tables.{
  active, superseded, Component, Version, Database, World, not_found, constraint,
}
use lavs_core.Database.Statements.{update_where, same_status}
use lavs_core.Database.Rows.{any-select, select_of_absent, any-map}
use lavs_core.Queries.Versions.{
  is_active_of, supersede_active, may_insert_version, insert_version, versions_with_id,
  create_version,
}

-- No version stays active when a component's active versions are superseded.
pub none_active :
    (c : String) (vs : List Version)
    → select
        (is_active_of c)
        (update_where (is_active_of c) (λ v. record v { status = superseded }) vs)
      ≡ []
unfolding same_status
none_active c [] = refl
none_active c (v ∷ vs) = ground (arith, none_active c vs)

any_id_supersede :
    (c id : String) (vs : List Version)
    → any
        (λ w. str_eq w.id id)
        (update_where (is_active_of c) (λ v. record v { status = superseded }) vs)
      ≡ any (λ w. str_eq w.id id) vs
any_id_supersede c id vs =
    any-map (λ (v : Version). v.id)
      (λ v. if is_active_of c v then record v { status = superseded } else v) id vs
      (λ v. ground arith)

module _ (row : Version) (w : World) where
  abbrev version : Version
  version = record row { status = active }

  abbrev pub superseding : Database
  superseding = supersede_active row.component_id w.db

  abbrev pub with_version : Database
  with_version = insert_version version superseding

  module _ (fresh : any (λ v. str_eq v.id row.id) w.db.versions ≡ false) where
    pub fresh_after : any (λ v. str_eq v.id row.id) superseding.versions ≡ false
    fresh_after = any_id_supersede row.component_id row.id w.db.versions ∙ fresh

    created_rows : versions_with_id row.id with_version ≡ version ∷ []
    created_rows =
        select-append (λ v. str_eq v.id row.id) superseding.versions (version ∷ [])
        ∙ rw
            (
              select_of_absent (λ (v : Version). str_eq v.id row.id) superseding.versions
                  fresh_after,
              (eq_iff row.id row.id).1 refl,
            )
            refl

    pub only_active : select (is_active_of row.component_id) with_version.versions ≡ version ∷ []
    unfolding same_status
    only_active =
        select-append (is_active_of row.component_id) superseding.versions (version ∷ [])
        ∙ rw
            (
              none_active row.component_id w.db.versions,
              (eq_iff row.component_id row.component_id).1 refl,
            )
            refl

    insertable :
        any (λ c. str_eq c.id row.component_id) w.db.components ≡ true
        → may_insert_version version superseding ≡ true
    insertable known = rw (fresh_after, known) refl

  -- Creating a version of a stored component under a new identifier returns the new version, which
  -- is the only active version of its component afterwards; the active versions of the component
  -- are superseded, the new one is added at the end, and nothing else changes in the database.
  pub create_version_lem :
      any (λ c. str_eq c.id row.component_id) w.db.components ≡ true
      → any (λ v. str_eq v.id row.id) w.db.versions ≡ false
      → ((create_version row w).0 ≡ ok version)
        × ((create_version row w).1.db ≡ with_version)
        × (select (is_active_of row.component_id) (create_version row w).1.db.versions
            ≡ version ∷ [])
  unfolding create_version
  create_version_lem known fresh =
      let (component, rest, found) =
        any-select (λ (c : Component). str_eq c.id row.component_id) w.db.components known in
      rw (found, insertable fresh known, created_rows fresh) (refl, refl, only_active fresh)

  -- Creating a version of an unknown component is refused and changes nothing.
  pub create_version-missing :
      any (λ c. str_eq c.id row.component_id) w.db.components ≡ false
      → create_version row w ≡ (err not_found, w)
  unfolding create_version
  create_version-missing unknown =
      rw
        (select_of_absent (λ (c : Component). str_eq c.id row.component_id) w.db.components unknown)
        refl

  -- The driver refuses a second version under an identifier; the active versions have then been
  -- superseded already.
  pub create_version-taken :
      any (λ c. str_eq c.id row.component_id) w.db.components ≡ true
      → any (λ v. str_eq v.id row.id) w.db.versions ≡ true
      → create_version row w ≡ (err constraint, record w { db = superseding })
  unfolding create_version
  create_version-taken known used =
      let (component, rest, found) =
        any-select (λ (c : Component). str_eq c.id row.component_id) w.db.components known in
      rw (found, any_id_supersede row.component_id row.id w.db.versions ∙ used) refl
