-- ===== src/Queries/Products.antt =====
-- app/queries/products and app/queries/components/create_component_query.py. New identifiers and the
-- clock's reading are arguments.
pub mod Names
use lavs_core.Prelude.{
  ℕ, Bool, true, false, not, ◌&&◌, ◌||◌, Option, none, some, List, [], ◌∷◌, ◌++◌, String, str_eq,
  any, select, ltb, ◌==◌, Result, ok, err, sort_by, if◌then◌else◌,
}
use lavs_core.Text.{Text, codes}
use lavs_core.Database.Tables.{
  default, ComponentKind, Product, Component, Database, World, Error, not_found, conflict,
}
use lavs_core.Database.Statements.{
  Action, ◌>>=◌, ◌>>◌, pure, raise, gets, insert, first_or, str_ltb, continue,
}
use lavs_core.Queries.Dependencies.{products_with_id, refuse_if}

-- The row of the INSERT, with the column's default base version.
abbrev pub new_product : String → String → Option String → ℕ → Product
new_product id name description now = record {
  id = id;
  name = name;
  description = description;
  base_version = codes "0.0.0";
  bump_policy = default;
  created_at = now;
}

abbrev pub may_insert_product : Product → Database → Bool
may_insert_product p db = not (any (λ q. str_eq q.id p.id) db.products)

abbrev pub insert_product : Product → Database → Database
insert_product p db = record db { products = db.products ++ p ∷ [] }

-- `CreateProductQuery.apply`
unfoldable pub create_product : String → String → Option String → ℕ → Action Product
create_product id name description now = do
  existing ← gets (λ db. any (λ p. str_eq p.name name) db.products)
  refuse_if existing
  let row = new_product id name description now
  insert (may_insert_product row) (insert_product row)
  rows ← gets (products_with_id id)
  first_or conflict rows

-- `GetProductByIdQuery.apply`
unfoldable pub get_product_by_id : String → Action Product
get_product_by_id product_id = do rows ← gets (products_with_id product_id); first_or not_found rows

-- `ListComponentsByProductQuery.apply`: by name, then by identifier.
unfoldable pub list_components_by_product : String → Database → List Component
unfolding sort_by
list_components_by_product product_id db =
    sort_by (λ c d. str_ltb c.name d.name || (str_eq c.name d.name && str_ltb c.id d.id))
      (select (λ c. str_eq c.product_id product_id) db.components)

-- `ListProductsQuery.apply`: by time, then by identifier.
unfoldable pub list_products : Database → List Product
unfolding sort_by
list_products db =
    sort_by
      (λ p q. ltb p.created_at q.created_at || (p.created_at == q.created_at && str_ltb p.id q.id))
      db.products

abbrev pub may_insert_component : Component → Database → Bool
may_insert_component c db =
    not (any (λ d. str_eq d.id c.id) db.components)
    && any (λ p. str_eq p.id c.product_id) db.products

abbrev pub insert_component : Component → Database → Database
insert_component c db = record db { components = db.components ++ c ∷ [] }

-- `CreateComponentQuery.apply`; the new row is an argument.
unfoldable pub create_component : Component → Action Component
create_component row = do
  products ← gets (products_with_id row.product_id)
  first_or not_found products
  insert (may_insert_component row) (insert_component row)
  pure row
