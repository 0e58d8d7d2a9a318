-- ===== src/Database/Migration/Loop.antt =====
-- The loop of the migration: what holds before each row.
use lavs_core.Prelude.{
  ℕ, ◌≤◌, ◌<◌, ◌≡◌, refl, sym, ◌∙◌, inl, inr, Bool, true, false, Option, none, some, List, [], ◌∷◌,
  ◌++◌, String, str_eq, eq_iff, arith, any, find, lookup, All, Option-cases,
}
use lavs_core.Database.Tables.{Product, Component, Version, Database}
use lavs_core.Database.Rows.{Unique}
use lavs_core.Database.Migration.{LegacyRow, known, Progress}

module _ {A : Type 0} (p : A → Bool) where
  pub find-append_left : (x : A) (xs ys : List A) → find p xs ≡ some x → find p (xs ++ ys) ≡ some x
  find-append_left x [] ys e = cc
  find-append_left x (z ∷ xs) ys e = ground (arith, find-append_left x xs ys)

  pub find-append_new :
      (x : A) (xs : List A) → any p xs ≡ false → p x ≡ true → find p (xs ++ x ∷ []) ≡ some x
  find-append_new x [] h k = rw k refl
  find-append_new x (z ∷ xs) h k = ground (arith, find-append_new x xs)

  pub any_of_find : (x : A) (xs : List A) → find p xs ≡ some x → any p xs ≡ true
  any_of_find x [] e = cc
  any_of_find x (z ∷ xs) e = ground (arith, any_of_find x xs)

-- The row that a version stands for.
abbrev pub product_by_id : String → Database → Option Product
product_by_id id db = find (λ p. str_eq p.id id) db.products

abbrev pub component_by_id : String → Database → Option Component
component_by_id id db = find (λ c. str_eq c.id id) db.components

abbrev pub named : Version → Option Product → Option LegacyRow
named v none = none
named v (some p) = some (record {
  product_name = p.name;
  major = v.major;
  minor = v.minor;
  patch = v.patch;
  status = known v.status;
})

abbrev pub in_product : Database → Version → Option Component → Option LegacyRow
in_product db v none = none
in_product db v (some c) = named v (product_by_id c.product_id db)

abbrev pub read_back : Database → Version → Option LegacyRow
read_back db v = in_product db v (component_by_id v.component_id db)

-- The component is one of the product with that name.
abbrev pub Serves : Database → String → String → Type 0
Serves db product_name component_id =
    (c : Component) × (p : Product) × (component_by_id component_id db ≡ some c)
    × (product_by_id c.product_id db ≡ some p)
    × (p.name ≡ product_name)

-- More products and components have been stored.
abbrev pub Extends : Database → Database → Type 0
Extends db db' =
    (ps : List Product) × (cs : List Component) × (db'.products ≡ db.products ++ ps)
    × (db'.components ≡ db.components ++ cs)

pub Serves-Extends :
    (db db' : Database) (product_name id : String)
    → Extends db db'
    → Serves db product_name id
    → Serves db' product_name id
Serves-Extends db db' product_name id (ps, cs, e, f) (c, p, of_c, of_p, is) = (
  c,
  p,
  rw f (find-append_left (λ d. str_eq d.id id) c db.components cs of_c),
  rw e (find-append_left (λ q. str_eq q.id c.product_id) p db.products ps of_p),
  is,
)

pub read_back-Serves :
    (db : Database) (v : Version) (product_name : String)
    → Serves db product_name v.component_id
    → read_back db v
      ≡ some (record {
        product_name = product_name;
        major = v.major;
        minor = v.minor;
        patch = v.patch;
        status = known v.status;
      })
read_back-Serves db v product_name (c, p, of_c, of_p, is) = rw of_c (rw of_p (rw is refl))

pub read_back-Extends :
    (db db' : Database) (v : Version) (row : LegacyRow)
    → Extends db db'
    → read_back db v ≡ some row
    → read_back db' v ≡ some row
read_back-Extends db db' v row (ps, cs, e, f) is =
    elim (Option-cases (component_by_id v.component_id db)) [
      | inl q ↦ cc (rw q at is)
      | inr (c, q) ↦ elim (Option-cases (product_by_id c.product_id db)) [
        | inl r ↦ cc (rw (q, r) at is)
        | inr (p, r) ↦ rw f (
            rw (find-append_left (λ d. str_eq d.id v.component_id) c db.components cs q) (
              rw e (
                rw (find-append_left (λ x. str_eq x.id c.product_id) p db.products ps r)
                  (rw (q, r) at is))))
      ]
    ]

module _ (ulid : ℕ → String) where
  -- The identifier is one of the first `n` that were drawn.
  abbrev pub Drawn : ℕ → String → Type 0
  Drawn n id = (i : ℕ) × (i < n) × (id ≡ ulid i)

  pub Drawn-later : (n m : ℕ) (id : String) → n ≤ m → Drawn n id → Drawn m id
  Drawn-later n m id h (i, lt, e) = (i, omega arith, e)

  module _ (injective : (i j : ℕ) → ulid i ≡ ulid j → i ≡ j) where
    pub not-Drawn :
        {A : Type 0} (key : A → String) (n m : ℕ) (xs : List A)
        → n ≤ m
        → All (λ x. Drawn n (key x)) xs
        → any (λ x. str_eq (key x) (ulid m)) xs ≡ false
    not-Drawn key n m [] h all = refl
    not-Drawn key n m (x ∷ xs) h ((i, lt, e), all) =
        ground (arith, not-Drawn key n m xs h all, eq_iff (key x) (ulid m), different)
      where
        different : key x ≡ ulid m → ⊥
        different q = omega (arith, injective i m (sym e ∙ q))

  -- What holds between two rows of the loop.
  pub record IsGood (s : Progress) : Type 0 where
    pub products : All (λ p. Drawn s.drawn p.id) s.db.products
    pub components : All (λ c. Drawn s.drawn c.id) s.db.components
    pub versions : All (λ v. Drawn s.drawn v.id) s.db.versions
    pub names : Unique (λ p. p.name) s.db.products
    pub serves :
        (product_name id : String)
        → lookup product_name s.component_id_by_product ≡ some id
        → Serves s.db product_name id
    pub listed :
        (product_name : String)
        → lookup product_name s.component_id_by_product ≡ none
        → any (λ p. str_eq p.name product_name) s.db.products ≡ false
