-- ===== src/Queries/Releases/Cut/Prior.antt =====
-- The manifest of the latest release that `_prior_manifest` reads, by the pins of that release.
use lavs_core.Prelude.{
  ◌≡◌, ◌⊎◌, refl, sym, ap, Option, none, some, List, [], ◌∷◌, map, String, str_eq, eq_iff, select,
  foldl, In, inl, inr, ⊎_elim, In-append, In-append_left, In-append_right, In-map, In-map_back,
  Bool-cases, Map, lookup, lookup-nil, lookup-put, put, eq_of_some,
}
use lavs_core.Domain.ChangeClassifier.{VersionTuple}
use lavs_core.Database.Tables.{Release, ReleaseComponent, Version, Database}
use lavs_core.Database.Rows.{In-select, In-to_select}
use lavs_core.Queries.Bumps.{tuple_of, prior_rows, put_row, prior_manifest}

-- A pin of a component and a stored version that it names.
abbrev pub IsPinOf : List ReleaseComponent → List Version → String → VersionTuple → Type 0
IsPinOf pins vs c t =
    (pin : ReleaseComponent) × (v : Version) × In pin pins
    × In v vs
    × (c ≡ pin.component_id)
    × (v.id ≡ pin.version_id)
    × (t ≡ tuple_of v)

-- The components that the latest release pins, each with the numbers of a version pinned for it.
abbrev pub IsPrior : Option Release → Database → Map VersionTuple → Type 0
IsPrior none db prior = prior ≡ []
IsPrior (some r) db prior =
    ((c : String) (t : VersionTuple)
      → lookup c prior ≡ some t
      → (pin : ReleaseComponent) × (v : Version) × In pin db.release_components
        × (pin.release_id ≡ r.id)
        × In v db.versions
        × (c ≡ pin.component_id)
        × (v.id ≡ pin.version_id)
        × (t ≡ tuple_of v))
    × ((pin : ReleaseComponent) (v : Version)
        → In pin db.release_components
        → pin.release_id ≡ r.id
        → In v db.versions
        → v.id ≡ pin.version_id
        → (t : VersionTuple) × (lookup pin.component_id prior ≡ some t))

In-prior_rows :
    (pins : List ReleaseComponent) (vs : List Version) (c : String) (t : VersionTuple)
    → In (c, t) (prior_rows pins vs)
    → IsPinOf pins vs c t
In-prior_rows [] vs c t m = absurd m
In-prior_rows (p ∷ ps) vs c t m =
    let row : Version → String × VersionTuple = λ v. (p.component_id, tuple_of v) in
    let here = select (λ (v : Version). str_eq v.id p.version_id) vs in
    ⊎_elim
      (λ first.
        let (v, there, e) = In-map_back row (c, t) here first in
        let (stored, passes) = In-select (λ v. str_eq v.id p.version_id) v vs there in
        (
          p,
          v,
          inl refl,
          stored,
          ap (λ (x : String × VersionTuple). x.0) e,
          (eq_iff v.id p.version_id).0 passes,
          ap (λ (x : String × VersionTuple). x.1) e,
        ))
      (λ later.
        let (q, v, there, stored, mine, named, same) = In-prior_rows ps vs c t later in
        (q, v, inr there, stored, mine, named, same))
      (In-append (c, t) (map row here) (prior_rows ps vs) m)

In-to_prior_rows :
    (pins : List ReleaseComponent) (vs : List Version) (pin : ReleaseComponent) (v : Version)
    → In pin pins
    → In v vs
    → v.id ≡ pin.version_id
    → In (pin.component_id, tuple_of v) (prior_rows pins vs)
In-to_prior_rows [] vs pin v m stored named = absurd m
In-to_prior_rows (p ∷ ps) vs pin v (inl e) stored named = rw (sym e) (
    In-append_left (pin.component_id, tuple_of v)
      (map (λ v. (pin.component_id, tuple_of v)) (select (λ v. str_eq v.id pin.version_id) vs))
      (prior_rows ps vs)
      (In-map (λ v. (pin.component_id, tuple_of v)) v (select (λ v. str_eq v.id pin.version_id) vs)
        (In-to_select (λ v. str_eq v.id pin.version_id) v vs stored
          ((eq_iff v.id pin.version_id).1 named))))
In-to_prior_rows (p ∷ ps) vs pin v (inr m) stored named =
    In-append_right (pin.component_id, tuple_of v)
      (map (λ v. (p.component_id, tuple_of v)) (select (λ v. str_eq v.id p.version_id) vs))
      (prior_rows ps vs) (In-to_prior_rows ps vs pin v m stored named)

lookup-put_rows :
    (rows : List (String × VersionTuple)) (d : Map VersionTuple) (c : String) (t : VersionTuple)
    → lookup c (foldl put_row d rows) ≡ some t
    → In (c, t) rows ⊎ (lookup c d ≡ some t)
lookup-put_rows [] d c t h = inr h
lookup-put_rows ((k, s) ∷ rows) d c t h =
    ⊎_elim {B = lookup c (put k s d) ≡ some t} (λ m. inl (inr m))
      (λ found. elim (Bool-cases (str_eq k c)) [
        | inl e ↦
            let same : s ≡ t = eq_of_some (rw (lookup-put k c s d, e) at found) in
            inl (inl (cc (same, (eq_iff k c).0 e)))
        | inr n ↦ inr (rw (lookup-put k c s d, n) at found)
      ])
      (lookup-put_rows rows (put k s d) c t h)

kept-put_rows :
    (rows : List (String × VersionTuple)) (d : Map VersionTuple) (c : String) (t : VersionTuple)
    → lookup c d ≡ some t
    → (u : VersionTuple) × (lookup c (foldl put_row d rows) ≡ some u)
kept-put_rows [] d c t h = (t, h)
kept-put_rows ((k, s) ∷ rows) d c t h = elim (Bool-cases (str_eq k c)) [
  | inl e ↦ kept-put_rows rows (put k s d) c s (rw (lookup-put k c s d, e) refl)
  | inr n ↦ kept-put_rows rows (put k s d) c t (rw (lookup-put k c s d, n) h)
]

found-put_rows :
    (rows : List (String × VersionTuple)) (d : Map VersionTuple) (c : String) (t : VersionTuple)
    → In (c, t) rows
    → (u : VersionTuple) × (lookup c (foldl put_row d rows) ≡ some u)
found-put_rows [] d c t m = absurd m
found-put_rows ((k, s) ∷ rows) d c t (inl e) =
    let same : c ≡ k = ap (λ (x : String × VersionTuple). x.0) e in
    kept-put_rows rows (put k s d) c s (rw (lookup-put k c s d, (eq_iff k c).1 (sym same)) refl)
found-put_rows ((k, s) ∷ rows) d c t (inr m) = found-put_rows rows (put k s d) c t m

pub prior_manifest-IsPrior :
    (latest : Option Release) (db : Database) → IsPrior latest db (prior_manifest latest db)
unfolding prior_manifest
prior_manifest-IsPrior none db = refl
prior_manifest-IsPrior (some r) db =
    let of_release : ReleaseComponent → _ = λ rc. str_eq rc.release_id r.id in
    let pins = select of_release db.release_components in
    let rows = prior_rows pins db.versions in
    (
      λ c t h.
          ⊎_elim
            (λ m.
              let (pin, v, there, stored, mine, named, same) =
                In-prior_rows pins db.versions c t m in
              let (kept, passes) = In-select of_release pin db.release_components there in
              (pin, v, kept, (eq_iff pin.release_id r.id).0 passes, stored, mine, named, same))
            (λ empty. cc (lookup-nil {V = VersionTuple} c, empty)) (lookup-put_rows rows [] c t h),
      λ pin v m of_r stored named. found-put_rows rows [] pin.component_id (tuple_of v) (
          In-to_prior_rows pins db.versions pin v
            (In-to_select of_release pin db.release_components m
              ((eq_iff pin.release_id r.id).1 of_r))
            stored named),
    )
