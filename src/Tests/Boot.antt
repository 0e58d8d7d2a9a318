-- ===== src/Tests/Boot.antt =====
-- app/database/migration at small inputs.
use lavs_core.Prelude.{ℕ, zero, suc, ◌≡◌, refl, ap, none, some, List, [], ◌∷◌, String, ok, map, All}
use lavs_core.Database.Tables.{superseded, active, no_rows}
use mathlib.Core.List.{Perm}
use lavs_core.Database.Migration.Order.{IsOrdered}
use lavs_core.Database.Rows.{Unique}
use lavs_core.Database.Migration.{LegacyRow, known, flat, Store, run}
use lavs_core.Database.Migration.Loop.{read_back}
use lavs_core.Database.Migration.Inserts.{IsKnown}
use lavs_core.Database.Migration.Boot.{run_again, run-read_back}

abbrev ulid : ℕ → String
ulid zero = ""
ulid (suc n) = String.◌∷◌ "i" (ulid n)

ulid_injective : (i j : ℕ) → ulid i ≡ ulid j → i ≡ j
ulid_injective zero zero e = refl
ulid_injective zero (suc j) e = cc
ulid_injective (suc i) zero e = cc
ulid_injective (suc i) (suc j) e = ap suc (ulid_injective i j (cc))

abbrev rows : List LegacyRow
rows =
    record { product_name = "b"; major = 1; minor = 0; patch = 0; status = known active }
    ∷ record { product_name = "a"; major = 2; minor = 0; patch = 0; status = known superseded }
    ∷ record { product_name = "b"; major = 0; minor = 9; patch = 0; status = known superseded }
    ∷ []

abbrev store : Store
store = record { versions_table = flat rows; archive = none; db = no_rows }

run_again_example : run ulid 7 (run ulid 7 store).1 ≡ (ok tt, (run ulid 7 store).1)
run_again_example = run_again ulid 7 store refl

accepted_rows : All IsKnown rows
accepted_rows = ((active, refl), ((superseded, refl), ((superseded, refl), tt)))

run-read_back_example :
    ((run ulid 7 store).0 ≡ ok tt)
    × ((run ulid 7 store).1.archive ≡ some rows)
    × ((read : List LegacyRow) × Perm read rows
        × IsOrdered read
        × (map (read_back (run ulid 7 store).1.db) (run ulid 7 store).1.db.versions
            ≡ map some read))
    × Unique (λ p. p.name) (run ulid 7 store).1.db.products
run-read_back_example =
    run-read_back ulid 7 store rows ulid_injective refl (λ e. cc) refl accepted_rows refl refl
