-- ===== src/Queries/Dependencies/Edges.antt =====
-- What adding and removing edges does.
use mathlib.Core.List.{append-nil}
use lavs_core.Queries.Dependencies.Checks.{
  Belongs, MayAdd, check_dependency-outcome, check_dependency_iff,
}
use lavs_core.Prelude.{
  ◌≡◌, refl, ap, sym, ◌∙◌, subst, true, false, not, List, [], ◌∷◌, ◌++◌, map, String, str_eq,
  eq_iff, arith, any, select, select-append, ok, err, In, inl, inr, ◌⊎◌, ⊎_elim, Bool-cases,
  List-cases,
}
use lavs_core.Domain.DependencyGraph.Acyclic.{IsAcyclic, IsAcyclic-subset}
use lavs_core.Database.Rows.{any_of_select, select_of_absent}
use lavs_core.Database.Tables.{Component, Dependency, Database, World, not_found}
use lavs_core.Queries.Dependencies.{
  is_edge, edge_of, edges_of, may_insert_dependency, insert_dependency, dependencies_with_id,
  store_dependency, add_dependency, remove_dependency,
}

-- The graph of every product is acyclic.
abbrev pub IsSound : Database → Type 0
IsSound db = (p : String) → IsAcyclic (edges_of p db)

edges_of-insert_same :
    (row : Dependency) (db : Database)
    → edges_of row.product_id (insert_dependency row db)
      ≡ edges_of row.product_id db ++ edge_of row ∷ []
edges_of-insert_same row db =
    ap (map edge_of)
      (select-append (λ e. str_eq e.product_id row.product_id) db.dependencies (row ∷ []))
    ∙ rw ((eq_iff row.product_id row.product_id).1 refl)
        (map-snoc (select (λ e. str_eq e.product_id row.product_id) db.dependencies))
  where
    map-snoc :
        (es : List Dependency) → map edge_of (es ++ row ∷ []) ≡ map edge_of es ++ edge_of row ∷ []
    map-snoc [] = refl
    map-snoc (e ∷ es) = ap (λ fs. edge_of e ∷ fs) (map-snoc es)

edges_of-insert_other :
    (row : Dependency) (db : Database) (p : String)
    → str_eq row.product_id p ≡ false
    → edges_of p (insert_dependency row db) ≡ edges_of p db
edges_of-insert_other row db p other = ap (map edge_of) (
    select-append (λ e. str_eq e.product_id p) db.dependencies (row ∷ [])
    ∙ rw other (append-nil (select (λ e. str_eq e.product_id p) db.dependencies)))

pub insert_dependency-IsSound :
    (row : Dependency) (db : Database)
    → IsAcyclic (edges_of row.product_id db ++ edge_of row ∷ [])
    → IsSound db
    → IsSound (insert_dependency row db)
insert_dependency-IsSound row db acyclic sound p = elim (Bool-cases (str_eq row.product_id p)) [
  | inl e ↦
      subst (λ q. IsAcyclic (edges_of q (insert_dependency row db))) ((eq_iff row.product_id p).0 e)
        (subst IsAcyclic (sym (edges_of-insert_same row db)) acyclic)
  | inr n ↦ subst IsAcyclic (sym (edges_of-insert_other row db p n)) (sound p)
]

store_dependency-db :
    (row : Dependency) (w : World)
    → ((store_dependency row w).1.db ≡ w.db)
      ⊎ ((store_dependency row w).1.db ≡ insert_dependency row w.db)
unfolding store_dependency
store_dependency-db row w = elim (Bool-cases (may_insert_dependency row w.db)) [
  | inr n ↦ inl (rw n refl)
  | inl e ↦ elim (List-cases (dependencies_with_id row.id (insert_dependency row w.db))) [
    | inl none_there ↦ inr (rw (e, none_there) refl)
    | inr (d, rest, there) ↦ inr (rw (e, there) refl)
  ]
]

-- If the graph of every product is acyclic, it is so after adding an edge, whether that succeeds
-- or is refused.
pub add_dependency-IsSound :
    (row : Dependency) (w : World) → IsSound w.db → IsSound (add_dependency row w).1.db
unfolding add_dependency
add_dependency-IsSound row w sound = elim (check_dependency-outcome row w (sound row.product_id)) [
  | inl (e, h) ↦ rw h sound
  | inr (h, may) ↦ rw h (
      ⊎_elim (λ q. subst IsSound (sym q) sound)
        (λ q. subst IsSound (sym q) (insert_dependency-IsSound row w.db may.acyclic sound))
        (store_dependency-db row w))
]

-- Where graphs are acyclic, an edge that may be added, under a new identifier, is returned and
-- stored at the end, and nothing else changes in the database.
pub add_dependency_lem :
    (row : Dependency) (w : World)
    → IsSound w.db
    → MayAdd row w.db
    → any (λ d. str_eq d.id row.id) w.db.dependencies ≡ false
    → ((add_dependency row w).0 ≡ ok row)
      × ((add_dependency row w).1.db ≡ insert_dependency row w.db)
unfolding add_dependency store_dependency
add_dependency_lem row w sound may fresh =
    rw ((check_dependency_iff row w (sound row.product_id)).1 may, insertable, rows) (refl, refl)
  where
    known :
        (c : String)
        → Belongs row.product_id c w.db
        → any (λ x. str_eq x.id c) w.db.components ≡ true
    known c (x, rest, e, q) =
        any_of_select (λ (y : Component). str_eq y.id c) w.db.components x rest e

    insertable : may_insert_dependency row w.db ≡ true
    insertable =
        rw
          (
            fresh,
            may.new,
            may.product,
            known row.from_component_id may.from_belongs,
            known row.to_component_id may.to_belongs,
          )
          refl

    rows : dependencies_with_id row.id (insert_dependency row w.db) ≡ row ∷ []
    rows =
        select-append (λ e. str_eq e.id row.id) w.db.dependencies (row ∷ [])
        ∙ rw
            (
              select_of_absent (λ (e : Dependency). str_eq e.id row.id) w.db.dependencies fresh,
              (eq_iff row.id row.id).1 refl,
            )
            refl

-- Removing an edge that is not there is refused and changes nothing.
pub remove_dependency-missing :
    (p from_id to_id : String) (w : World)
    → any (is_edge p from_id to_id) w.db.dependencies ≡ false
    → remove_dependency p from_id to_id w ≡ (err not_found, w)
unfolding remove_dependency
remove_dependency-missing p from_id to_id w h =
    rw (select_of_absent (is_edge p from_id to_id) w.db.dependencies h) refl

-- If the graph of every product is acyclic, it is so after removing an edge, whether that succeeds
-- or is refused.
pub remove_dependency-IsSound :
    (p from_id to_id : String) (w : World)
    → IsSound w.db
    → IsSound (remove_dependency p from_id to_id w).1.db
unfolding remove_dependency
remove_dependency-IsSound p from_id to_id w sound =
    elim (List-cases (select (is_edge p from_id to_id) w.db.dependencies)) [
      | inl e ↦ rw e sound
      | inr (row, rest, e) ↦ rw e (λ q. IsAcyclic-subset (fewer q row w.db.dependencies) (sound q))
    ]
  where
    fewer :
        (q : String) (row : Dependency) (ds : List Dependency) (a b : String)
        → In
            (a, b)
            (map edge_of
              (select (λ e. str_eq e.product_id q) (select (λ e. not (str_eq e.id row.id)) ds)))
        → In (a, b) (map edge_of (select (λ e. str_eq e.product_id q) ds))
    fewer q row [] a b m = m
    fewer q row (d ∷ ds) a b m = ground (arith, fewer q row ds a b)
