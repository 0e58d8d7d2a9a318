-- ===== src/Queries/Versions/Statuses.antt =====
-- The three updates of statuses that a rollback runs (app/queries/versions/rollback_version_query.py).
use lavs_core.Prelude.{
  ◌≡◌, refl, ap, sym, ◌∙◌, true, false, List, [], ◌∷◌, map, String, str_eq, eq_iff, arith,
  if◌then◌else◌, inl, inr, Bool-cases,
}
use lavs_core.Database.Tables.{VersionStatus, active, superseded, rolled_back, Version, Database}
use lavs_core.Database.Statements.{same_status}
use lavs_core.Queries.Versions.{is_active_of, reactivate}

abbrev pub version_id : Version → String
version_id v = v.id

abbrev pub mark : VersionStatus → String → Version → Version
mark status id v = if str_eq v.id id then record v { status = status } else v

abbrev pub supersede : String → Version → Version
supersede c v = if is_active_of c v then record v { status = superseded } else v

pub marked_id : (st : VersionStatus) (id : String) (v : Version) → (mark st id v).id ≡ v.id
marked_id st id v = ground arith

pub marked_component :
    (st : VersionStatus) (id : String) (v : Version) → (mark st id v).component_id ≡ v.component_id
marked_component st id v = ground arith

pub superseded_id : (c : String) (v : Version) → (supersede c v).id ≡ v.id
superseded_id c v = ground arith

pub superseded_component :
    (c : String) (v : Version) → (supersede c v).component_id ≡ v.component_id
superseded_component c v = ground arith

pub marked_active :
    (c id : String) (v : Version)
    → str_eq v.id id ≡ true
    → is_active_of c (mark active id v) ≡ str_eq v.component_id c
unfolding same_status
marked_active c id v e = rw e ground arith

pub superseded_inactive : (c : String) (v : Version) → is_active_of c (supersede c v) ≡ false
unfolding same_status
superseded_inactive c v = ground arith

pub unmarked :
    (st : VersionStatus) (id : String) (v : Version) → str_eq v.id id ≡ false → mark st id v ≡ v
unmarked st id v e = rw e refl

-- The status that the three updates leave in a row.
abbrev pub after : Version → Version → Version → Version
after target previous v =
    mark active previous.id (supersede target.component_id (mark rolled_back target.id v))

-- The three updates leave the re-activated version as the component's only active one.
pub is_active_after :
    (target previous v : Version)
    → (str_eq v.id previous.id ≡ true → str_eq v.component_id target.component_id ≡ true)
    → is_active_of target.component_id
        (mark active previous.id (supersede target.component_id (mark rolled_back target.id v)))
      ≡ str_eq v.id previous.id
is_active_after target previous v same =
    let u : Version = supersede target.component_id (mark rolled_back target.id v) in
    let id : u.id ≡ v.id =
      superseded_id target.component_id (mark rolled_back target.id v)
      ∙ marked_id rolled_back target.id v in
    let component : u.component_id ≡ v.component_id =
      superseded_component target.component_id (mark rolled_back target.id v)
      ∙ marked_component rolled_back target.id v in
    elim (Bool-cases (str_eq v.id previous.id)) [
      | inl e ↦
          marked_active target.component_id previous.id u (ap (λ i. str_eq i previous.id) id ∙ e)
          ∙ (ap (λ i. str_eq i target.component_id) component ∙ (same e ∙ sym e))
      | inr e ↦
          ap (is_active_of target.component_id)
            (unmarked active previous.id u (ap (λ i. str_eq i previous.id) id ∙ e))
          ∙ (superseded_inactive target.component_id (mark rolled_back target.id v) ∙ sym e)
    ]

pub reactivate-rows :
    (target previous : Version) (db : Database)
    → (reactivate target previous db).versions ≡ map (after target previous) db.versions
reactivate-rows target previous db = maps db.versions
  where
    maps :
        (vs : List Version)
        → map
            (mark active previous.id)
            (map (supersede target.component_id) (map (mark rolled_back target.id) vs))
          ≡ map (after target previous) vs
    maps [] = refl
    maps (v ∷ vs) = ap (λ us. after target previous v ∷ us) (maps vs)

pub after-id : (target previous v : Version) → (after target previous v).id ≡ v.id
after-id target previous v =
    marked_id active previous.id (supersede target.component_id (mark rolled_back target.id v))
    ∙ (superseded_id target.component_id (mark rolled_back target.id v)
        ∙ marked_id rolled_back target.id v)

pub after_previous :
    (target previous : Version)
    → after target previous previous ≡ record previous { status = active }
after_previous target previous =
    reactivating (supersede target.component_id (mark rolled_back target.id previous))
      (superseded_id target.component_id (mark rolled_back target.id previous)
        ∙ marked_id rolled_back target.id previous)
      (same_facts previous)
  where
    facts : Version → Version
    facts v = record v { status = active }

    reactivating :
        (u : Version)
        → u.id ≡ previous.id
        → facts u ≡ facts previous
        → mark active previous.id u ≡ facts previous
    reactivating u e same = rw ((eq_iff u.id previous.id).1 e) same

    same_facts :
        (v : Version)
        → facts (supersede target.component_id (mark rolled_back target.id v)) ≡ facts v
    same_facts v = ground arith
