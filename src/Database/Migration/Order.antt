-- ===== src/Database/Migration/Order.antt =====
-- The order in which the legacy rows are read, by names and numbers.
use lavs_core.Prelude.{
  ◌≡◌, ◌<◌, ◌⊎◌, true, false, List, [], ◌∷◌, eq_iff, arith, All, All-map_of, sort_by, IsSorted,
  IsSorted-sort_by, sort_by-Perm,
}
use mathlib.Core.List.{Perm}
use lavs_core.Database.Statements.{str_ltb}
use lavs_core.Database.StringOrder.{str_ltb_asym, str_ltb_weak, str_ltb_total, str_ltb_refl}
use lavs_core.Database.Migration.{LegacyRow, row_before, read_legacy_rows}

-- By the name of the product, and then by the three numbers.
abbrev pub ComesBefore : LegacyRow → LegacyRow → Type 0
ComesBefore r s =
    (str_ltb r.product_name s.product_name ≡ true)
    ⊎ ((r.product_name ≡ s.product_name)
        × ((r.major < s.major)
            ⊎ ((r.major ≡ s.major)
                × ((r.minor < s.minor) ⊎ ((r.minor ≡ s.minor) × (r.patch < s.patch))))))

-- No row comes before one that it stands behind.
abbrev pub IsOrdered : List LegacyRow → Type 0
IsOrdered [] = Unit
IsOrdered (r ∷ rs) = All (λ s. ComesBefore s r → ⊥) rs × IsOrdered rs

row_before_asym : (r s : LegacyRow) → row_before r s ≡ true → row_before s r ≡ false
row_before_asym r s h = ground (
  arith,
  str_ltb_asym r.product_name s.product_name,
  str_ltb_refl r.product_name,
  eq_iff r.product_name s.product_name,
  eq_iff s.product_name r.product_name,
)

row_before_weak :
    (r s t : LegacyRow) → row_before r s ≡ true → row_before t s ≡ false → row_before r t ≡ true
row_before_weak r s t h k = ground (
  arith,
  str_ltb_weak r.product_name s.product_name t.product_name,
  str_ltb_total t.product_name s.product_name,
  eq_iff r.product_name s.product_name,
  eq_iff t.product_name s.product_name,
  eq_iff r.product_name t.product_name,
)

not_before : (r s : LegacyRow) → row_before r s ≡ false → ComesBefore r s → ⊥
not_before r s h k = ground (arith, eq_iff r.product_name s.product_name)

IsOrdered-of_sorted : (rows : List LegacyRow) → IsSorted row_before rows → IsOrdered rows
IsOrdered-of_sorted [] s = tt
IsOrdered-of_sorted (r ∷ rows) (first, s) =
    (All-map_of (λ x h. not_before x r h) rows first, IsOrdered-of_sorted rows s)

pub read_legacy_rows-IsOrdered : (rows : List LegacyRow) → IsOrdered (read_legacy_rows rows)
unfolding read_legacy_rows
read_legacy_rows-IsOrdered rows =
    IsOrdered-of_sorted (sort_by row_before rows)
      (IsSorted-sort_by row_before row_before_asym row_before_weak rows)

pub read_legacy_rows-Perm : (rows : List LegacyRow) → Perm (read_legacy_rows rows) rows
unfolding read_legacy_rows
read_legacy_rows-Perm rows = sort_by-Perm row_before rows
