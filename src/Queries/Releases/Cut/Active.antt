-- ===== src/Queries/Releases/Cut/Active.antt =====
-- The active versions of a product's components.
use lavs_core.Prelude.{
  ◌≡◌, ◌↔◌, refl, sym, true, ◌&&◌, List, [], ◌∷◌, String, str_eq, eq_iff, arith, select, In, inl,
  inr, ⊎_elim, In-append, In-append_left, In-append_right, In-map, In-map_back, In-sort_by,
  In-to_sort_by,
}
use lavs_core.Database.Tables.{
  VersionStatus, active, superseded, rolled_back, Component, Version, Database,
}
use lavs_core.Database.Statements.{same_status, str_ltb}
use lavs_core.Database.Rows.{In-select, In-to_select}
use lavs_core.Queries.Bumps.{ActiveRow, join_active, join_all, active_rows}

-- The row of a component and an active version of it.
abbrev pub IsRowOf : Component → Version → ActiveRow → Type 0
IsRowOf c v r =
    (v.component_id ≡ c.id)
    × (v.status ≡ active)
    × (r ≡ record { component_id = c.id; name = c.name; version = v })

-- The row of an active version of one of the product's components.
abbrev pub IsActiveRow : String → Database → ActiveRow → Type 0
IsActiveRow product_id db r =
    (c : Component) × (v : Version) × In c db.components
    × (c.product_id ≡ product_id)
    × In v db.versions
    × IsRowOf c v r

active_status : (s : VersionStatus) → same_status s active ≡ true → s ≡ active
unfolding same_status
active_status active h = refl
active_status superseded h = cc
active_status rolled_back h = cc

status_active : (s : VersionStatus) → s ≡ active → same_status s active ≡ true
unfolding same_status
status_active s e = rw e refl

In-join_active :
    (c : Component) (vs : List Version) (r : ActiveRow)
    → In r (join_active c vs)
    → (v : Version) × In v vs × IsRowOf c v r
In-join_active c vs r m =
    let (v, there, e) =
      In-map_back (λ v. record { component_id = c.id; name = c.name; version = v }) r
        (select (λ v. str_eq v.component_id c.id && same_status v.status active) vs) m in
    let (stored, passes) =
      In-select (λ v. str_eq v.component_id c.id && same_status v.status active) v vs there in
    (
      v,
      stored,
      ((eq_iff v.component_id c.id).0 (ground arith), active_status v.status (ground arith), e),
    )

In-join_all :
    (cs : List Component) (vs : List Version) (r : ActiveRow)
    → In r (join_all cs vs)
    → (c : Component) × (v : Version) × In c cs × In v vs × IsRowOf c v r
In-join_all [] vs r m = absurd m
In-join_all (c ∷ cs) vs r m =
    ⊎_elim (λ here. let (v, stored, j) = In-join_active c vs r here in (c, v, inl refl, stored, j))
      (λ later.
        let (d, v, there, stored, j) = In-join_all cs vs r later in (d, v, inr there, stored, j))
      (In-append r (join_active c vs) (join_all cs vs) m)

In-to_join_all :
    (cs : List Component) (vs : List Version) (c : Component) (v : Version)
    → In c cs
    → In v vs
    → v.component_id ≡ c.id
    → v.status ≡ active
    → In (record { component_id = c.id; name = c.name; version = v }) (join_all cs vs)
In-to_join_all [] vs c v m stored mine act = absurd m
In-to_join_all (d ∷ cs) vs c v (inl e) stored mine act = rw (sym e) (
    In-append_left (record { component_id = c.id; name = c.name; version = v }) (join_active c vs)
      (join_all cs vs)
      (In-map (λ v. record { component_id = c.id; name = c.name; version = v }) v
        (select (λ v. str_eq v.component_id c.id && same_status v.status active) vs)
        (In-to_select (λ v. str_eq v.component_id c.id && same_status v.status active) v vs stored
          (ground (arith, (eq_iff v.component_id c.id).1 mine, status_active v.status act)))))
In-to_join_all (d ∷ cs) vs c v (inr m) stored mine act =
    In-append_right (record { component_id = c.id; name = c.name; version = v }) (join_active d vs)
      (join_all cs vs) (In-to_join_all cs vs c v m stored mine act)

pub In-active_rows :
    (product_id : String) (db : Database) (r : ActiveRow)
    → In r (active_rows product_id db) ↔ IsActiveRow product_id db r
unfolding active_rows
In-active_rows product_id db r =
    let mine : Component → _ = λ c. str_eq c.product_id product_id in
    let cs = select mine db.components in
    let first : ActiveRow → ActiveRow → _ = λ r s. str_ltb r.component_id s.component_id in
    (
      λ m.
          let (c, v, there, stored, j) =
            In-join_all cs db.versions r (In-sort_by first r (join_all cs db.versions) m) in
          let (kept, passes) = In-select mine c db.components there in
          (c, v, kept, (eq_iff c.product_id product_id).0 passes, stored, j),
      λ (c, v, kept, of_product, stored, j).
          let (of_c, act, e) = j in
          In-to_sort_by first r (join_all cs db.versions) (
            rw e (
              In-to_join_all cs db.versions c v
                (In-to_select mine c db.components kept
                  ((eq_iff c.product_id product_id).1 of_product))
                stored of_c act)),
    )
