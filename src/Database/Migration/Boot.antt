-- ===== src/Database/Migration/Boot.antt =====
-- What a boot does to the legacy table, and what the next boot does.
use lavs_core.Prelude.{
  ℕ, ◌≡◌, ◌≢◌, ◌∷◌, refl, ap, ◌∙◌, inl, inr, none, some, List, [], String, ok, lookup, All, All-In,
  All_of_In, In-sort_by, sort_by, Option-cases, map,
}
use mathlib.Core.List.{Perm}
use lavs_core.Database.Rows.{Unique}
use lavs_core.Database.Migration.Order.{
  IsOrdered, read_legacy_rows-IsOrdered, read_legacy_rows-Perm,
}
use lavs_core.Database.Migration.{
  LegacyRow, flat, relational, Store, Progress, insert_relational, should_migrate,
  archive_source_table, init_schema, read_legacy_rows, row_before, fill, finished, run,
}
use lavs_core.Database.Migration.Loop.{read_back, IsGood}
use lavs_core.Database.Migration.Inserts.{IsKnown, map_of_Reads, insert_relational-ok}

module _ (ulid : ℕ → String) (now : ℕ) where
  run-none : (s : Store) → should_migrate s ≡ none → run ulid now s ≡ (ok tt, s)
  unfolding run
  run-none s e = rw (e, run) refl

  -- The store that is filled.
  abbrev pub archived : List LegacyRow → Store → Store
  archived rows s = record s {
    versions_table = relational;
    archive = some rows;
    db = record s.db { versions = [] };
  }

  run-some :
      (s : Store) (rows : List LegacyRow)
      → should_migrate s ≡ some rows
      → s.archive ≡ none
      → run ulid now s ≡ fill ulid now (read_legacy_rows rows) (archived rows s)
  unfolding run archive_source_table init_schema
  run-some s rows e a = rw (e, run) (rw (a, run) refl)

  fill-table :
      (rows : List LegacyRow) (s : Store)
      → ((fill ulid now rows s).1.versions_table ≡ s.versions_table)
        × ((fill ulid now rows s).1.archive ≡ s.archive)
  unfolding fill
  fill-table rows s = (refl, refl)

  not_flat : (s : Store) → s.versions_table ≡ relational → should_migrate s ≡ none
  unfolding should_migrate
  not_flat s e = rw e refl

  -- Where no table has been archived before, a boot after a boot changes nothing and does not fail,
  -- whatever the outcome of the first was: so also where an insert of the first failed, and the
  -- rows behind it are in the archive only.
  pub run_again :
      (s : Store) → s.archive ≡ none → run ulid now (run ulid now s).1 ≡ (ok tt, (run ulid now s).1)
  run_again s a = elim (Option-cases (should_migrate s)) [
    | inl e ↦ rw (run-none s e) (run-none s e)
    | inr (rows, e) ↦ rw (run-some s rows e a) (
        run-none (fill ulid now (read_legacy_rows rows) (archived rows s)).1 (
          not_flat (fill ulid now (read_legacy_rows rows) (archived rows s)).1
            (fill-table (read_legacy_rows rows) (archived rows s)).0))
  ]

  migrates :
      (s : Store) (rows : List LegacyRow)
      → s.versions_table ≡ flat rows
      → rows ≢ []
      → s.db.products ≡ []
      → should_migrate s ≡ some rows
  unfolding should_migrate
  migrates s [] table some_rows no_products = absurd (some_rows refl)
  migrates s (r ∷ rows) table some_rows no_products =
      rw (table, should_migrate) (rw (no_products, should_migrate) refl)

  abbrev start : List LegacyRow → Store → Progress
  start rows s = record { component_id_by_product = []; drawn = 0; db = (archived rows s).db }

  start-IsGood :
      (rows : List LegacyRow) (s : Store)
      → s.db.products ≡ []
      → s.db.components ≡ []
      → IsGood ulid (start rows s)
  unfolding lookup
  start-IsGood rows s p c = record {
    products = rw p tt;
    components = rw c tt;
    versions = tt;
    names = rw p tt;
    serves = λ name id e. cc;
    listed = λ name e. rw p refl;
  }

  sorted-IsKnown : (rows : List LegacyRow) → All IsKnown rows → All IsKnown (read_legacy_rows rows)
  unfolding read_legacy_rows
  sorted-IsKnown rows k =
      All_of_In IsKnown (sort_by row_before rows)
        (λ row m. All-In IsKnown rows k row (In-sort_by row_before row rows m))

  filled_by :
      (rows : List LegacyRow) (s : Store) (t : Progress)
      → insert_relational ulid now (read_legacy_rows rows) (start rows s) ≡ (ok tt, t)
      → fill ulid now (read_legacy_rows rows) (archived rows s)
        ≡ (ok tt, record (archived rows s) { db = t.db })
  unfolding fill
  filled_by rows s t stored = ap (finished (archived rows s)) stored

  -- A boot that finds a flat table with rows and no product, where the statuses are ones that the
  -- new schema admits, no component is stored, no table has been archived before and new
  -- identifiers are distinct, succeeds and archives the flat table as it was. The stored versions,
  -- each with the name of the product that its component belongs to, are then the flat rows with
  -- their statuses, each as often as it stood there, ordered by the name and the three numbers; and
  -- the names of the products are distinct.
  pub run-read_back :
      (s : Store) (rows : List LegacyRow)
      → ((i j : ℕ) → ulid i ≡ ulid j → i ≡ j)
      → s.versions_table ≡ flat rows
      → rows ≢ []
      → s.db.products ≡ []
      → All IsKnown rows
      → s.archive ≡ none
      → s.db.components ≡ []
      → ((run ulid now s).0 ≡ ok tt)
        × ((run ulid now s).1.archive ≡ some rows)
        × ((read : List LegacyRow) × Perm read rows
            × IsOrdered read
            × (map (read_back (run ulid now s).1.db) (run ulid now s).1.db.versions
                ≡ map some read))
        × Unique (λ p. p.name) (run ulid now s).1.db.products
  run-read_back s rows injective table some_rows no_products k a c =
      let e = migrates s rows table some_rows no_products in
      let (t, stored, good, read) =
        insert_relational-ok ulid injective now (read_legacy_rows rows) [] (start rows s)
          (sorted-IsKnown rows k) (start-IsGood rows s no_products c) tt in
      let filled : fill ulid now (read_legacy_rows rows) (archived rows s)
          ≡ (ok tt, record (archived rows s) { db = t.db }) =
        filled_by rows s t stored in
      rw (run-some s rows e a ∙ filled) (
        refl,
        refl,
        (
          read_legacy_rows rows,
          read_legacy_rows-Perm rows,
          read_legacy_rows-IsOrdered rows,
          map_of_Reads t.db t.db.versions (read_legacy_rows rows) read,
        ),
        good.names,
      )
