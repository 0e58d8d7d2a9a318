-- ===== src/Database/Migration.antt =====
-- app/database/migration/flat_to_relational_migration.py and legacy_schema.py. The tables are those of
-- Database.Tables, and the one that the legacy API wrote. New identifiers are `ulid n`, for the
-- number of those drawn before. A legacy row whose status is NULL is left out of the model.
pub mod Loop
pub mod Rows
pub mod Inserts
pub mod Order
pub mod Boot
use lavs_core.Prelude.{
  ℕ, suc, ◌+◌, Bool, true, false, not, ◌&&◌, ◌||◌, Option, none, some, List, [], ◌∷◌, ◌++◌, String,
  str_eq, any, ltb, ◌==◌, Result, ok, err, sort_by, if◌then◌else◌, Map, lookup, put,
}
use lavs_core.Text.{codes}
use lavs_core.Database.Tables.{
  VersionStatus, legacy, service, Product, Component, Version, Database,
}
use lavs_core.Database.Statements.{str_ltb}
use lavs_core.Queries.Products.{
  may_insert_product, insert_product, may_insert_component, insert_component,
}
use lavs_core.Queries.Versions.{may_insert_version, insert_version}

-- The text of the status column: one that the CHECK of the relational table admits, or another.
pub data LegacyStatus : Type 0 where
  known : VersionStatus → LegacyStatus
  other : String → LegacyStatus

pub record LegacyRow : Type 0 where
  pub product_name : String
  pub major : ℕ
  pub minor : ℕ
  pub patch : ℕ
  pub status : LegacyStatus

-- What the name `versions` stands for; the rows of the relational table are those of the database.
pub data VersionsTable : Type 0 where
  absent relational : VersionsTable
  flat : List LegacyRow → VersionsTable

-- The tables; `archive` is `legacy_versions`.
pub record Store : Type 0 where
  pub versions_table : VersionsTable
  pub archive : Option (List LegacyRow)
  pub db : Database

-- A constraint of the tables, or a name that is taken.
pub data MigrationError : Type 0 where
  constraint table_exists : MigrationError

-- The variables of the loop, and the number of identifiers drawn.
pub record Progress : Type 0 where
  pub component_id_by_product : Map String
  pub drawn : ℕ
  pub db : Database

abbrev pub Outcome : Type 0 → Type 0
Outcome A = Result MigrationError A × Progress

abbrev pub and_then : {A B : Type 0} → Outcome A → (A → Progress → Outcome B) → Outcome B
and_then (err e, s) f = (err e, s)
and_then (ok a, s) f = f a s

-- ORDER BY product_name, major, minor, patch
abbrev pub row_before : LegacyRow → LegacyRow → Bool
row_before r s =
    str_ltb r.product_name s.product_name
    || (str_eq r.product_name s.product_name
        && (ltb r.major s.major
            || (r.major == s.major
                && (ltb r.minor s.minor || (r.minor == s.minor && ltb r.patch s.patch)))))

-- `_read_legacy_rows`
unfoldable pub read_legacy_rows : List LegacyRow → List LegacyRow
unfolding sort_by
read_legacy_rows rows = sort_by row_before rows

module _ (ulid : ℕ → String) (now : ℕ) where
  abbrev pub product_row : ℕ → String → Product
  product_row n product_name = record {
    id = ulid n;
    name = product_name;
    description = none;
    base_version = codes "0.0.0";
    bump_policy = legacy;
    created_at = now;
  }

  abbrev pub component_row : ℕ → Component
  component_row n = record {
    id = ulid (suc n);
    product_id = ulid n;
    name = "default";
    kind = service;
  }

  abbrev pub insert_default : Progress → Outcome String
  insert_default s =
      if may_insert_component (component_row s.drawn) s.db
      then (
        ok (ulid (suc s.drawn)),
        record s { db = insert_component (component_row s.drawn) s.db; drawn = s.drawn + 2 },
      )
      else (err constraint, record s { drawn = s.drawn + 2 })

  -- `_create_product_and_component`
  unfoldable pub create_product_and_component : String → Progress → Outcome String
  create_product_and_component product_name s =
      if may_insert_product (product_row s.drawn product_name) s.db
      then insert_default (record s { db = insert_product (product_row s.drawn product_name) s.db })
      else (err constraint, record s { drawn = suc s.drawn })

  -- The component of a product, which is created at its first row.
  unfoldable pub component_of : String → Progress → Outcome String
  unfolding lookup put create_product_and_component
  component_of product_name s = elim (lookup product_name s.component_id_by_product) [
    | some component_id ↦ (ok component_id, s)
    | none ↦ and_then (create_product_and_component product_name s) (λ component_id t. (
      ok component_id,
      record t {
        component_id_by_product = put product_name component_id t.component_id_by_product;
      },
    ))
  ]

  abbrev pub version_row : ℕ → LegacyRow → VersionStatus → String → Version
  version_row n row status component_id = record {
    id = ulid n;
    component_id = component_id;
    major = row.major;
    minor = row.minor;
    patch = row.patch;
    prerelease = none;
    status = status;
    created_at = now;
  }

  -- The insert of a version, with the CHECK of its status.
  unfoldable pub insert_row : LegacyRow → LegacyStatus → String → Progress → Outcome (Unit {0})
  insert_row row (other status) component_id s = (err constraint, record s { drawn = suc s.drawn })
  insert_row row (known status) component_id s =
      if may_insert_version (version_row s.drawn row status component_id) s.db
      then (
        ok tt,
        record s {
          db = insert_version (version_row s.drawn row status component_id) s.db;
          drawn = suc s.drawn;
        },
      )
      else (err constraint, record s { drawn = suc s.drawn })

  -- The body of the loop.
  unfoldable pub migrate_row : LegacyRow → Progress → Outcome (Unit {0})
  unfolding component_of insert_row
  migrate_row row s = and_then (component_of row.product_name s) (insert_row row row.status)

  -- `_insert_relational`
  unfoldable pub insert_relational : List LegacyRow → Progress → Outcome (Unit {0})
  unfolding migrate_row
  insert_relational [] s = (ok tt, s)
  insert_relational (row ∷ rows) s = and_then (migrate_row row s) (λ _. insert_relational rows)

-- `_row_count` is 0
abbrev pub is_empty_table : {A : Type 0} → List A → Bool
is_empty_table [] = true
is_empty_table (x ∷ xs) = false

-- `_should_migrate`, with the rows of the legacy table.
unfoldable pub should_migrate : Store → Option (List LegacyRow)
should_migrate s = elim s.versions_table [
  | absent ↦ none
  | relational ↦ none
  | flat rows ↦
      if is_empty_table rows then none else if is_empty_table s.db.products then some rows else none
]

-- `_archive_source_table`
unfoldable pub archive_source_table : List LegacyRow → Store → Result MigrationError Store
archive_source_table rows s = elim s.archive [
  | some old ↦ err table_exists
  | none ↦ ok (record s { versions_table = absent; archive = some rows })
]

-- `Backend.init_schema`: the tables that are not there are created.
unfoldable pub init_schema : Store → Store
init_schema s = elim s.versions_table [
  | absent ↦ record s { versions_table = relational; db = record s.db { versions = [] } }
  | relational ↦ s
  | flat rows ↦ s
]

abbrev pub finished : Store → Outcome (Unit {0}) → Result MigrationError (Unit {0}) × Store
finished s (r, progress) = (r, record s { db = progress.db })

module _ (ulid : ℕ → String) (now : ℕ) where
  -- The inserts, once the schema is there.
  unfoldable pub fill : List LegacyRow → Store → Result MigrationError (Unit {0}) × Store
  unfolding insert_relational
  fill rows s = finished s (
      insert_relational ulid now rows
        (record { component_id_by_product = []; drawn = 0; db = s.db }))

  -- `FlatToRelationalMigration.run`
  unfoldable pub run : Store → Result MigrationError (Unit {0}) × Store
  unfolding should_migrate read_legacy_rows archive_source_table init_schema fill
  run s = elim (should_migrate s) [
    | none ↦ (ok tt, s)
    | some rows ↦ elim (archive_source_table rows s) [
      | err e ↦ (err e, s)
      | ok archived ↦ fill (read_legacy_rows rows) (init_schema archived)
    ]
  ]
