-- ===== src/Queries/ReleasesRead/Grouping.antt =====
-- What a reader finds under a release in the mapping of the manifests.
use lavs_core.Prelude.{
  ◌≡◌, refl, sym, ap, ◌∙◌, Bool, true, false, List, [], ◌∷◌, ◌++◌, foldl, map, String, str_eq,
  eq_iff, arith, any, select, select-append, sort_by, In, Map, lookup-put, lookup-nil, Bool-cases,
  inl, inr, ◌⊎◌, if◌then◌else◌, select-sort_by,
}
use mathlib.Core.List.{append-nil, append_assoc}
use lavs_core.Database.Tables.{
  Component, Version, ReleaseComponent, ReleaseComponentResponse, Database,
}
use lavs_core.Database.StringOrder.{before_by_asym, before_by_weak}
use lavs_core.Queries.ReleasesRead.{
  ManifestRow, joined_versions, joined_components, joined_rows, name_first, manifest_rows,
  append_component, read, manifest_of,
}

-- The manifest of one release: its rows of the join, by name and then by component.
abbrev pub own_manifest : String → Database → List ReleaseComponentResponse
own_manifest release_id db =
    map (λ row. row.component)
      (sort_by name_first (
        joined_rows (select (λ rc. str_eq rc.release_id release_id) db.release_components)
          db.components db.versions))

abbrev is_of : String → ManifestRow → Bool
is_of release_id row = str_eq row.release_id release_id

manifest_of-foldl :
    (rows : List ManifestRow) (grouped : Map (List ReleaseComponentResponse)) (id : String)
    → manifest_of (foldl append_component grouped rows) id
      ≡ manifest_of grouped id ++ map (λ row. row.component) (select (is_of id) rows)
unfolding append_component
manifest_of-foldl [] grouped id = sym (append-nil (manifest_of grouped id))
manifest_of-foldl (row ∷ rows) grouped id =
    manifest_of-foldl rows (append_component grouped row) id
    ∙ step (Bool-cases (str_eq row.release_id id))
  where
    later : List ReleaseComponentResponse
    later = map (λ row. row.component) (select (is_of id) rows)

    step :
        (str_eq row.release_id id ≡ true) ⊎ (str_eq row.release_id id ≡ false)
        → manifest_of (append_component grouped row) id ++ later
          ≡ manifest_of grouped id ++ map (λ row. row.component) (select (is_of id) (row ∷ rows))
    step (inl e) =
        rw
          (
            lookup-put row.release_id id (manifest_of grouped row.release_id ++ row.component ∷ [])
                grouped,
            e,
          )
          (append_assoc (manifest_of grouped row.release_id) (row.component ∷ []) later
            ∙ ap (λ k. manifest_of grouped k ++ row.component ∷ later)
                ((eq_iff row.release_id id).0 e))
    step (inr e) =
        rw
          (
            lookup-put row.release_id id (manifest_of grouped row.release_id ++ row.component ∷ [])
                grouped,
            e,
          )
          refl

select-joined_versions :
    (id : String) (rc : ReleaseComponent) (c : Component) (vs : List Version)
    → select (is_of id) (joined_versions rc c vs)
      ≡ (if str_eq rc.release_id id then joined_versions rc c vs else [])
select-joined_versions id rc c [] = ground arith
select-joined_versions id rc c (v ∷ vs) = ground (arith, select-joined_versions id rc c vs)

select-joined_components :
    (id : String) (rc : ReleaseComponent) (cs : List Component) (vs : List Version)
    → select (is_of id) (joined_components rc cs vs)
      ≡ (if str_eq rc.release_id id then joined_components rc cs vs else [])
select-joined_components id rc [] vs = ground arith
select-joined_components id rc (c ∷ cs) vs = ground (
  arith,
  select-append (is_of id) (joined_versions rc c vs) (joined_components rc cs vs),
  select-joined_versions id rc c vs,
  select-joined_components id rc cs vs,
)

select-joined_rows :
    (id : String) (rcs : List ReleaseComponent) (cs : List Component) (vs : List Version)
    → select (is_of id) (joined_rows rcs cs vs)
      ≡ joined_rows (select (λ rc. str_eq rc.release_id id) rcs) cs vs
select-joined_rows id [] cs vs = refl
select-joined_rows id (rc ∷ rcs) cs vs =
    select-append (is_of id) (joined_components rc cs vs) (joined_rows rcs cs vs)
    ∙ ground (arith, select-joined_components id rc cs vs, select-joined_rows id rcs cs vs)

any-requested :
    (id k : String) (ids : List String)
    → In id ids
    → str_eq k id ≡ true
    → any (λ i. str_eq i k) ids ≡ true
any-requested id k [] m e = absurd m
any-requested id k (i ∷ ids) m e = ground (arith, any-requested id k ids, eq_iff i k, eq_iff k id)

select-requested :
    (id : String) (ids : List String) (rcs : List ReleaseComponent)
    → In id ids
    → select
        (λ rc. str_eq rc.release_id id)
        (select (λ rc. any (λ i. str_eq i rc.release_id) ids) rcs)
      ≡ select (λ rc. str_eq rc.release_id id) rcs
select-requested id ids [] m = refl
select-requested id ids (rc ∷ rcs) m = elim (Bool-cases (str_eq rc.release_id id)) [
  | inl e ↦
      rw (any-requested id rc.release_id ids m e)
        (rw e (ap (λ r. rc ∷ r) (select-requested id ids rcs m)))
  | inr n ↦ ground (arith, select-requested id ids rcs m)
]

select-manifest_rows :
    (id : String) (ids : List String) (db : Database)
    → In id ids
    → map (λ row. row.component) (select (is_of id) (manifest_rows ids db)) ≡ own_manifest id db
unfolding manifest_rows
select-manifest_rows id ids db m = ap (map (λ row. row.component)) (
    select-sort_by name_first
      (λ r s.
        before_by_asym (r.component.name, r.component.component_id)
          (s.component.name, s.component.component_id))
      (λ r s t.
        before_by_weak (r.component.name, r.component.component_id)
          (s.component.name, s.component.component_id) (t.component.name, t.component.component_id))
      (is_of id)
      (joined_rows (select (λ rc. any (λ i. str_eq i rc.release_id) ids) db.release_components)
        db.components db.versions)
    ∙ ap (sort_by name_first) (
        select-joined_rows id
          (select (λ rc. any (λ i. str_eq i rc.release_id) ids) db.release_components) db.components
          db.versions
        ∙ ap (λ (rcs : List ReleaseComponent). joined_rows rcs db.components db.versions)
            (select-requested id ids db.release_components m)))

-- Whatever releases are read together, each has the manifest that its own rows make.
pub manifest_of-read :
    (id : String) (ids : List String) (db : Database)
    → In id ids
    → manifest_of (read ids db) id ≡ own_manifest id db
unfolding read
manifest_of-read id [] db m = absurd m
manifest_of-read id (i ∷ ids) db m =
    manifest_of-foldl (manifest_rows (i ∷ ids) db) [] id
    ∙ rw (lookup-nil {V = List ReleaseComponentResponse} id)
        (select-manifest_rows id (i ∷ ids) db m)
