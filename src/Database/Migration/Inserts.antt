-- ===== src/Database/Migration/Inserts.antt =====
-- The inserts of the migration succeed, and what they store reads back as the legacy rows.
use lavs_core.Prelude.{
  ℕ, suc, ◌≡◌, refl, sym, ap, ◌∙◌, subst, inl, inr, Option, some, List, [], ◌∷◌, ◌++◌, String,
  str_eq, arith, ok, lookup, All, All-append, All-map_of, Option-cases, map,
}
use mathlib.Core.List.{append-nil, append_assoc}
use lavs_core.Database.Tables.{VersionStatus, Product, Component, Version, Database}
use lavs_core.Queries.Versions.{insert_version}
use lavs_core.Database.Migration.{
  LegacyRow, known, Progress, Outcome, and_then, version_row, component_of, insert_row, migrate_row,
  insert_relational,
}
use lavs_core.Database.Migration.Loop.{
  any_of_find, read_back, read_back-Serves, read_back-Extends, Serves, Extends, Drawn, Drawn-later,
  not-Drawn, IsGood,
}
use lavs_core.Database.Migration.Rows.{
  with_product, component_of-new, Extends-new, Serves-new, with_product-IsGood,
}

-- The CHECK of the relational table admits the status.
abbrev pub IsKnown : LegacyRow → Type 0
IsKnown row = (status : VersionStatus) × (row.status ≡ known status)

Extends-refl : (db : Database) → Extends db db
Extends-refl db = ([], [], sym (append-nil db.products), sym (append-nil db.components))

Extends-trans : (a b c : Database) → Extends a b → Extends b c → Extends a c
Extends-trans a b c (ps, cs, e, f) (qs, ds, g, h) = (
  ps ++ qs,
  cs ++ ds,
  g ∙ ap (λ (xs : List Product). xs ++ qs) e ∙ append_assoc a.products ps qs,
  h ∙ ap (λ (xs : List Component). xs ++ ds) f ∙ append_assoc a.components cs ds,
)

-- The versions stand for the rows, in their order.
abbrev pub Reads : Database → List Version → List LegacyRow → Type 0
Reads db [] [] = Unit
Reads db [] (row ∷ rows) = ⊥
Reads db (v ∷ vs) [] = ⊥
Reads db (v ∷ vs) (row ∷ rows) = (read_back db v ≡ some row) × Reads db vs rows

Reads-Extends :
    (db db' : Database) (vs : List Version) (rows : List LegacyRow)
    → Extends db db'
    → Reads db vs rows
    → Reads db' vs rows
Reads-Extends db db' [] [] h r = tt
Reads-Extends db db' [] (row ∷ rows) h r = r
Reads-Extends db db' (v ∷ vs) [] h r = r
Reads-Extends db db' (v ∷ vs) (row ∷ rows) h r =
    (read_back-Extends db db' v row h r.0, Reads-Extends db db' vs rows h r.1)

Reads-append :
    (db : Database) (vs : List Version) (rows : List LegacyRow) (v : Version) (row : LegacyRow)
    → Reads db vs rows
    → read_back db v ≡ some row
    → Reads db (vs ++ v ∷ []) (rows ++ row ∷ [])
Reads-append db [] [] v row r e = (e, tt)
Reads-append db [] (s ∷ rows) v row r e = absurd r
Reads-append db (w ∷ vs) [] v row r e = absurd r
Reads-append db (w ∷ vs) (s ∷ rows) v row r e = (r.0, Reads-append db vs rows v row r.1 e)

pub map_of_Reads :
    (db : Database) (vs : List Version) (rows : List LegacyRow)
    → Reads db vs rows
    → map (read_back db) vs ≡ map some rows
map_of_Reads db [] [] r = refl
map_of_Reads db [] (row ∷ rows) r = absurd r
map_of_Reads db (v ∷ vs) [] r = absurd r
map_of_Reads db (v ∷ vs) (row ∷ rows) r =
    rw r.0 (ap (λ (xs : List (Option LegacyRow)). some row ∷ xs) (map_of_Reads db vs rows r.1))

module _ (ulid : ℕ → String) (injective : (i j : ℕ) → ulid i ≡ ulid j → i ≡ j) (now : ℕ) where
  component_of-ok :
      (product_name : String) (s : Progress)
      → IsGood ulid s
      → (id : String) × (s' : Progress) × (component_of ulid now product_name s ≡ (ok id, s'))
        × IsGood ulid s'
        × Serves s'.db product_name id
        × Extends s.db s'.db
        × (s'.db.versions ≡ s.db.versions)
  unfolding component_of
  component_of-ok product_name s g =
      elim (Option-cases (lookup product_name s.component_id_by_product)) [
        | inr (id, e) ↦ (
          id,
          s,
          rw (e, component_of) refl,
          g,
          g.serves product_name id e,
          Extends-refl s.db,
          refl,
        )
        | inl new ↦ (
          ulid (suc s.drawn),
          with_product ulid injective now product_name s,
          component_of-new ulid injective now product_name s g new,
          with_product-IsGood ulid injective now product_name s g new,
          Serves-new ulid injective now product_name s g,
          Extends-new ulid injective now product_name s g,
          refl,
        )
      ]

  -- The progress once a version is stored.
  abbrev with_version : LegacyRow → VersionStatus → String → Progress → Progress
  with_version row status id s = record s {
    db = insert_version (version_row ulid now s.drawn row status id) s.db;
    drawn = suc s.drawn;
  }

  insert_row-ok :
      (row : LegacyRow) (status : VersionStatus) (id : String) (s : Progress)
      → IsGood ulid s
      → Serves s.db row.product_name id
      → (insert_row ulid now row (known status) id s ≡ (ok tt, with_version row status id s))
        × IsGood ulid (with_version row status id s)
  unfolding insert_row
  insert_row-ok row status id s g (c, p, of_c, of_p, is) = (
    rw
        (
          not-Drawn ulid injective (λ (v : Version). v.id) s.drawn s.drawn s.db.versions
              (omega arith) g.versions,
          any_of_find (λ d. str_eq d.id id) c s.db.components of_c,
        )
        refl,
    record {
      products = later (λ p. p.id) s.db.products g.products;
      components = later (λ c. c.id) s.db.components g.components;
      versions =
          All-append (λ v. Drawn ulid (suc s.drawn) v.id) s.db.versions
            (version_row ulid now s.drawn row status id ∷ [])
            (later (λ v. v.id) s.db.versions g.versions) ((s.drawn, omega arith, refl), tt);
      names = g.names;
      serves = g.serves;
      listed = g.listed;
    },
  )
    where
      later :
          {A : Type 0} (key : A → String) (xs : List A)
          → All (λ x. Drawn ulid s.drawn (key x)) xs
          → All (λ x. Drawn ulid (suc s.drawn) (key x)) xs
      later key xs all =
          All-map_of (λ x d. Drawn-later ulid s.drawn (suc s.drawn) (key x) (omega arith) d) xs all

  migrate_row-ok :
      (row : LegacyRow) (done : List LegacyRow) (s : Progress)
      → IsKnown row
      → IsGood ulid s
      → Reads s.db s.db.versions done
      → (s' : Progress) × (migrate_row ulid now row s ≡ (ok tt, s'))
        × IsGood ulid s'
        × Reads s'.db s'.db.versions (done ++ row ∷ [])
  unfolding migrate_row
  migrate_row-ok row done s (status, is) g r =
      let (id, t, got, good, serves, more, same) = component_of-ok row.product_name s g in
      let (stored, good') = insert_row-ok row status id t good serves in
      (
        with_version row status id t,
        ap (λ (o : Outcome String). and_then o (insert_row ulid now row row.status)) got
            ∙ ap (λ st. insert_row ulid now row st id t) is
            ∙ stored,
        good',
        Reads-append t.db t.db.versions done (version_row ulid now t.drawn row status id) row
            (rw same (Reads-Extends s.db t.db s.db.versions done more r))
            (read_back-Serves t.db (version_row ulid now t.drawn row status id) row.product_name
                serves
              ∙ ap (λ st. some (record row { status = st })) (sym is)),
      )

  -- Every row is stored, and the versions stand for the rows.
  pub insert_relational-ok :
      (rows done : List LegacyRow) (s : Progress)
      → All IsKnown rows
      → IsGood ulid s
      → Reads s.db s.db.versions done
      → (s' : Progress) × (insert_relational ulid now rows s ≡ (ok tt, s'))
        × IsGood ulid s'
        × Reads s'.db s'.db.versions (done ++ rows)
  unfolding insert_relational
  insert_relational-ok [] done s k g r = (s, refl, g, rw (append-nil done) r)
  insert_relational-ok (row ∷ rows) done s k g r =
      let (t, stored, good, read) = migrate_row-ok row done s k.0 g r in
      let (u, rest, good', read') = insert_relational-ok rows (done ++ row ∷ []) t k.1 good read in
      (
        u,
        ap (λ (o : Outcome (Unit {0})). and_then o (λ _. insert_relational ulid now rows)) stored
            ∙ rest,
        good',
        subst (Reads u.db u.db.versions) (append_assoc done (row ∷ []) rows) read',
      )
