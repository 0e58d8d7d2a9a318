-- ===== src/Queries/Products/Names.antt =====
-- Names of products stay unique.
use lavs_core.Prelude.{
  ℕ, ◌≡◌, refl, true, false, Option, [], ◌∷◌, String, str_eq, eq_iff, any, select-append, ok, err,
  inl, inr, Bool-cases,
}
use lavs_core.Database.Tables.{Product, World, conflict}
use lavs_core.Database.Rows.{Unique, Unique-append, select_of_absent}
use lavs_core.Queries.Products.{new_product, insert_product, create_product}

abbrev pub name : Product → String
name p = p.name

module _ (id title : String) (description : Option String) (now : ℕ) (w : World) where
  create_product-taken :
      any (λ p. str_eq p.name title) w.db.products ≡ true
      → create_product id title description now w ≡ (err conflict, w)
  unfolding create_product
  create_product-taken taken = rw taken refl

  -- A product under a new name and a new identifier is stored at the end and returned.
  pub create_product_lem :
      any (λ p. str_eq p.name title) w.db.products ≡ false
      → any (λ p. str_eq p.id id) w.db.products ≡ false
      → create_product id title description now w ≡ (
        ok (new_product id title description now),
        record w { db = insert_product (new_product id title description now) w.db },
      )
  unfolding create_product
  create_product_lem new_name new_id =
      rw
        (
          new_name,
          new_id,
          select-append (λ p. str_eq p.id id) w.db.products
              (new_product id title description now ∷ []),
          select_of_absent (λ (p : Product). str_eq p.id id) w.db.products new_id,
          (eq_iff id id).1 refl,
        )
        refl

  create_product-refused :
      any (λ p. str_eq p.name title) w.db.products ≡ false
      → any (λ p. str_eq p.id id) w.db.products ≡ true
      → (create_product id title description now w).1 ≡ w
  unfolding create_product
  create_product-refused new_name used = rw (new_name, used) refl

  -- If the names of products are unique, they are so after creating a product, whether that
  -- succeeds or is refused.
  pub create_product-Unique :
      Unique name w.db.products
      → Unique name (create_product id title description now w).1.db.products
  create_product-Unique unique = elim (Bool-cases (any (λ p. str_eq p.name title) w.db.products)) [
    | inl taken ↦ rw (create_product-taken taken) unique
    | inr new_name ↦ elim (Bool-cases (any (λ p. str_eq p.id id) w.db.products)) [
      | inl used ↦ rw (create_product-refused new_name used) unique
      | inr new_id ↦
          rw (create_product_lem new_name new_id) (
            Unique-append name w.db.products (new_product id title description now) new_name unique)
    ]
  ]
