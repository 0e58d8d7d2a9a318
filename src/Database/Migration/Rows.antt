-- ===== src/Database/Migration/Rows.antt =====
-- One row of the migration.
use lavs_core.Prelude.{
  ℕ, suc, ◌+◌, ◌≡◌, refl, sym, ◌∙◌, inl, inr, true, false, none, some, List, [], ◌∷◌, ◌++◌, String,
  str_eq, eq_iff, arith, any, any-append, if◌then◌else◌, ok, lookup, put, lookup-put, All,
  All-append, All-map_of, Bool-cases, eq_of_some,
}
use lavs_core.Database.Tables.{Product, Component}
use lavs_core.Database.Rows.{Unique-append}
use lavs_core.Queries.Products.{insert_product, insert_component}
use lavs_core.Database.Migration.{
  Progress, product_row, component_row, create_product_and_component, component_of,
}
use lavs_core.Database.Migration.Loop.{
  find-append_new, Serves, Extends, Serves-Extends, Drawn, Drawn-later, not-Drawn, IsGood,
}

module _ (ulid : ℕ → String) (injective : (i j : ℕ) → ulid i ≡ ulid j → i ≡ j) (now : ℕ) where
  -- The progress once a product and its component are stored.
  abbrev pub with_product : String → Progress → Progress
  with_product product_name s = record {
    component_id_by_product = put product_name (ulid (suc s.drawn)) s.component_id_by_product;
    drawn = s.drawn + 2;
    db =
        insert_component (component_row ulid now s.drawn)
          (insert_product (product_row ulid now s.drawn product_name) s.db);
  }

  module _ (product_name : String) (s : Progress) (g : IsGood ulid s) where
    created : create_product_and_component ulid now product_name s ≡ (
      ok (ulid (suc s.drawn)),
      record (with_product product_name s) { component_id_by_product = s.component_id_by_product },
    )
    unfolding create_product_and_component
    created =
        rw
          (not-Drawn ulid injective (λ (p : Product). p.id) s.drawn s.drawn s.db.products
            (omega arith) g.products)
          (rw
            (
              not-Drawn ulid injective (λ (c : Component). c.id) s.drawn (suc s.drawn)
                  s.db.components (omega arith) g.components,
              stored,
            )
            refl)
      where
        stored :
            any
              (λ p. str_eq p.id (ulid s.drawn))
              (s.db.products ++ product_row ulid now s.drawn product_name ∷ [])
            ≡ true
        stored =
            any-append (λ p. str_eq p.id (ulid s.drawn)) s.db.products
              (product_row ulid now s.drawn product_name ∷ [])
            ∙ ground (arith, eq_iff (ulid s.drawn) (ulid s.drawn))

    pub component_of-new :
        lookup product_name s.component_id_by_product ≡ none
        → component_of ulid now product_name s
          ≡ (ok (ulid (suc s.drawn)), with_product product_name s)
    unfolding component_of
    component_of-new new = rw (new, component_of) (rw (created, component_of) refl)

    pub Extends-new : Extends s.db (with_product product_name s).db
    Extends-new = (
      product_row ulid now s.drawn product_name ∷ [],
      component_row ulid now s.drawn ∷ [],
      refl,
      refl,
    )

    pub Serves-new : Serves (with_product product_name s).db product_name (ulid (suc s.drawn))
    Serves-new = (
      component_row ulid now s.drawn,
      product_row ulid now s.drawn product_name,
      find-append_new (λ c. str_eq c.id (ulid (suc s.drawn))) (component_row ulid now s.drawn)
          s.db.components
          (not-Drawn ulid injective (λ (c : Component). c.id) s.drawn (suc s.drawn) s.db.components
            (omega arith) g.components)
          ((eq_iff (ulid (suc s.drawn)) (ulid (suc s.drawn))).1 refl),
      find-append_new (λ p. str_eq p.id (ulid s.drawn)) (product_row ulid now s.drawn product_name)
          s.db.products
          (not-Drawn ulid injective (λ (p : Product). p.id) s.drawn s.drawn s.db.products
            (omega arith) g.products)
          ((eq_iff (ulid s.drawn) (ulid s.drawn)).1 refl),
      refl,
    )

    module _ (new : lookup product_name s.component_id_by_product ≡ none) where
      all_served :
          (other id : String)
          → lookup other (with_product product_name s).component_id_by_product ≡ some id
          → Serves (with_product product_name s).db other id
      all_served other id e = elim (Bool-cases (str_eq product_name other)) [
        | inl same ↦
            rw (sym ((eq_iff product_name other).0 same))
              (rw (sym (eq_of_some (rw same at found))) Serves-new)
        | inr different ↦
            Serves-Extends s.db (with_product product_name s).db other id Extends-new
              (g.serves other id (rw different at found))
      ]
        where
          found :
              (if str_eq product_name other
                then some (ulid (suc s.drawn))
                else lookup other s.component_id_by_product)
              ≡ some id
          found =
              sym (lookup-put product_name other (ulid (suc s.drawn)) s.component_id_by_product) ∙ e

      all_listed :
          (other : String)
          → lookup other (with_product product_name s).component_id_by_product ≡ none
          → any (λ p. str_eq p.name other) (with_product product_name s).db.products ≡ false
      all_listed other e =
          any-append (λ p. str_eq p.name other) s.db.products
            (product_row ulid now s.drawn product_name ∷ [])
          ∙ ground (
            arith,
            lookup-put product_name other (ulid (suc s.drawn)) s.component_id_by_product,
            e,
            g.listed other,
          )

      pub with_product-IsGood : IsGood ulid (with_product product_name s)
      with_product-IsGood = record {
        products =
            All-append (λ p. Drawn ulid (s.drawn + 2) p.id) s.db.products
              (product_row ulid now s.drawn product_name ∷ [])
              (later (λ p. p.id) s.db.products g.products) ((s.drawn, omega arith, refl), tt);
        components =
            All-append (λ c. Drawn ulid (s.drawn + 2) c.id) s.db.components
              (component_row ulid now s.drawn ∷ []) (later (λ c. c.id) s.db.components g.components)
              ((suc s.drawn, omega arith, refl), tt);
        versions = later (λ v. v.id) s.db.versions g.versions;
        names =
            Unique-append (λ p. p.name) s.db.products (product_row ulid now s.drawn product_name)
              (g.listed product_name new) g.names;
        serves = all_served;
        listed = all_listed;
      }
        where
          later :
              {A : Type 0} (key : A → String) (xs : List A)
              → All (λ x. Drawn ulid s.drawn (key x)) xs
              → All (λ x. Drawn ulid (s.drawn + 2) (key x)) xs
          later key xs all =
              All-map_of (λ x d. Drawn-later ulid s.drawn (s.drawn + 2) (key x) (omega arith) d) xs
                all
