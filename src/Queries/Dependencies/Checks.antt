-- ===== src/Queries/Dependencies/Checks.antt =====
-- What the checks of a new edge let through (app/queries/component_dependencies/add_dependency_query.py).
use lavs_core.Prelude.{
  ◌≡◌, ◌≢◌, refl, true, false, List, [], ◌∷◌, ◌++◌, String, str_eq, eq_iff, arith, any, ok, err,
  inl, inr, ◌⊎◌, Bool-cases, List-cases, ◌↔◌,
}
use lavs_core.Domain.DependencyGraph.Acyclic.{IsAcyclic, would_create_cycle_correct}
use lavs_core.Database.Rows.{any-select, select_of_absent}
use lavs_core.Database.Tables.{
  Product, Component, Dependency, Database, World, Error, not_found, conflict,
}
use lavs_core.Queries.Dependencies.{
  components_with_id, assert_component, is_edge, edge_of, edges_of, check_dependency,
}

-- The first component with the identifier belongs to the product.
abbrev pub Belongs : String → String → Database → Type 0
Belongs product_id component_id db =
    (c : Component) × (rest : List Component) × (components_with_id component_id db ≡ c ∷ rest)
    × (c.product_id ≡ product_id)

assert_component-outcome :
    (p c : String) (w : World)
    → ((e : Error) × (assert_component p c w ≡ (err e, w)))
      ⊎ ((assert_component p c w ≡ (ok tt, w)) × Belongs p c w.db)
unfolding assert_component
assert_component-outcome p c w = elim (List-cases (components_with_id c w.db)) [
  | inl e ↦ inl (not_found, rw e refl)
  | inr (x, rest, e) ↦ elim (Bool-cases (str_eq x.product_id p)) [
    | inl q ↦ inr (rw (e, q) refl, (x, rest, e, (eq_iff x.product_id p).0 q))
    | inr q ↦ inl (conflict, rw (e, q) refl)
  ]
]

assert_component-Belongs :
    (p c : String) (w : World) → Belongs p c w.db → assert_component p c w ≡ (ok tt, w)
unfolding assert_component
assert_component-Belongs p c w (x, rest, e, q) = rw (e, (eq_iff x.product_id p).1 q) refl

-- What an edge must satisfy to be added.
pub record MayAdd (row : Dependency) (db : Database) : Type 0 where
  pub product : any (λ p. str_eq p.id row.product_id) db.products ≡ true
  pub from_belongs : Belongs row.product_id row.from_component_id db
  pub to_belongs : Belongs row.product_id row.to_component_id db
  pub distinct : row.from_component_id ≢ row.to_component_id
  pub new :
      any (is_edge row.product_id row.from_component_id row.to_component_id) db.dependencies ≡ false
  pub acyclic : IsAcyclic (edges_of row.product_id db ++ edge_of row ∷ [])

module _ (row : Dependency) (w : World) (sound : IsAcyclic (edges_of row.product_id w.db)) where
  abbrev Outcome : Type 0
  Outcome =
      ((e : Error) × (check_dependency row w ≡ (err e, w)))
      ⊎ ((check_dependency row w ≡ (ok tt, w)) × MayAdd row w.db)

  searched :
      (product : any (λ p. str_eq p.id row.product_id) w.db.products ≡ true)
      → (assert_component row.product_id row.from_component_id w ≡ (ok tt, w))
        × Belongs row.product_id row.from_component_id w.db
      → (assert_component row.product_id row.to_component_id w ≡ (ok tt, w))
        × Belongs row.product_id row.to_component_id w.db
      → str_eq row.from_component_id row.to_component_id ≡ false
      → any (is_edge row.product_id row.from_component_id row.to_component_id) w.db.dependencies
        ≡ false
      → Outcome
  unfolding check_dependency
  searched product (from_runs, from_belongs) (to_runs, to_belongs) distinct new =
      let (p, rest, found) =
        any-select (λ (p : Product). str_eq p.id row.product_id) w.db.products product in
      let (b, decided, iff) =
        would_create_cycle_correct (edges_of row.product_id w.db) row.from_component_id
          row.to_component_id sound in
      elim (Bool-cases b) [
        | inl cyclic ↦
            inl (conflict, rw (found, from_runs, to_runs, distinct, new, decided, cyclic) refl)
        | inr free ↦ inr (
          rw (found, from_runs, to_runs, distinct, new, decided, free) refl,
          record {
            product = product;
            from_belongs = from_belongs;
            to_belongs = to_belongs;
            distinct = λ e. cc (distinct, (eq_iff row.from_component_id row.to_component_id).1 e);
            new = new;
            acyclic = iff.0 free;
          },
        )
      ]

  pub check_dependency-outcome : Outcome
  unfolding check_dependency
  check_dependency-outcome =
      elim (Bool-cases (any (λ p. str_eq p.id row.product_id) w.db.products)) [
        | inr n ↦ inl (
          not_found,
          rw (select_of_absent (λ (p : Product). str_eq p.id row.product_id) w.db.products n) refl,
        )
        | inl product ↦
            let (p, rest, found) =
              any-select (λ (p : Product). str_eq p.id row.product_id) w.db.products product in
            elim (assert_component-outcome row.product_id row.from_component_id w) [
              | inl (e, h) ↦ inl (e, rw (found, h) refl)
              | inr from_ok ↦ elim (assert_component-outcome row.product_id row.to_component_id w) [
                | inl (e, h) ↦ inl (e, rw (found, from_ok.0, h) refl)
                | inr to_ok ↦ elim (Bool-cases (str_eq row.from_component_id row.to_component_id)) [
                  | inl same ↦ inl (conflict, rw (found, from_ok.0, to_ok.0, same) refl)
                  | inr distinct ↦
                      elim (Bool-cases (
                        any (is_edge row.product_id row.from_component_id row.to_component_id)
                          w.db.dependencies)) [
                            | inl known ↦
                                inl (conflict, rw (found, from_ok.0, to_ok.0, distinct, known) refl)
                            | inr new ↦ searched product from_ok to_ok distinct new
                          ]
                ]
              ]
            ]
      ]

  -- If the graph of the product is acyclic, the checks of a new edge pass, changing nothing,
  -- exactly when the product is stored, the two components are stored, belong to it and are
  -- distinct, there is no such edge yet, and the graph stays acyclic with the edge.
  pub check_dependency_iff : (check_dependency row w ≡ (ok tt, w)) ↔ MayAdd row w.db
  unfolding check_dependency
  check_dependency_iff = (forward check_dependency-outcome, back)
    where
      forward : Outcome → check_dependency row w ≡ (ok tt, w) → MayAdd row w.db
      forward (inl (e, h)) k = cc
      forward (inr (h, may)) k = may

      distinct : MayAdd row w.db → str_eq row.from_component_id row.to_component_id ≡ false
      distinct may = ground (arith, may.distinct, eq_iff row.from_component_id row.to_component_id)

      back : MayAdd row w.db → check_dependency row w ≡ (ok tt, w)
      back may =
          let (p, rest, found) =
            any-select (λ (p : Product). str_eq p.id row.product_id) w.db.products may.product in
          let (b, decided, iff) =
            would_create_cycle_correct (edges_of row.product_id w.db) row.from_component_id
              row.to_component_id sound in
          rw
            (
              found,
              assert_component-Belongs row.product_id row.from_component_id w may.from_belongs,
              assert_component-Belongs row.product_id row.to_component_id w may.to_belongs,
              distinct may,
              may.new,
              decided,
              iff.1 may.acyclic,
            )
            refl
