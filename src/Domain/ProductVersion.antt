-- ===== src/Domain/ProductVersion.antt =====
-- app/domain/product_version.py: the next version of a product.
pub mod Parsing
pub mod Bumps
use lavs_core.Prelude.{
  ℕ, ◌+◌, Option, none, some, List, [], ◌∷◌, ◌++◌, String, Result, ok, err, ◌>>=◌, ℤ, pos, negsuc,
  Bool, true, false, ◌||◌, if◌then◌else◌,
}
use lavs_core.Text.{Text, codes, before, split, int, decimal}
use lavs_core.Domain.BumpLevel.{BumpLevel}

-- The three messages of the ValueError.
pub data VersionError : Type 0 where
  not_three_parts not_integers negative : VersionError

-- `(major, minor, patch)`
pub record Core : Type 0 where
  pub major : ℕ
  pub minor : ℕ
  pub patch : ℕ

-- `n < 0`
abbrev pub is_negative : ℤ → Bool
is_negative (pos n) = false
is_negative (negsuc n) = true

abbrev pub to_ℕ : ℤ → ℕ
to_ℕ (pos n) = n
to_ℕ (negsuc n) = 0

-- The test for negative numbers, after which each is a natural number.
unfoldable pub check_sign : ℤ → ℤ → ℤ → Result VersionError Core
check_sign major minor patch =
    if is_negative major || (is_negative minor || is_negative patch)
    then err negative
    else ok (record { major = to_ℕ major; minor = to_ℕ minor; patch = to_ℕ patch })

-- `int(part)`, its ValueError turned into the function's own
unfoldable pub part_to_int : Text → Result VersionError ℤ
part_to_int part = elim (int part) [ none ↦ err not_integers | some n ↦ ok n ]

unfoldable pub parse_parts : List Text → Result VersionError Core
unfolding check_sign part_to_int
parse_parts (a ∷ b ∷ c ∷ []) = do
  major ← part_to_int a
  minor ← part_to_int b
  patch ← part_to_int c
  check_sign major minor patch
parse_parts _ = err not_three_parts

-- `_parse_core`
unfoldable pub parse_core : Text → Result VersionError Core
unfolding parse_parts
parse_core version = parse_parts (split b'.' (before b'-' version))

-- f"{major}.{minor}.{patch}"
unfoldable pub dotted : ℕ → ℕ → ℕ → Text
dotted major minor patch = decimal major ++ b'.' ∷ (decimal minor ++ b'.' ∷ decimal patch)

unfoldable pub bump_minor : Text → Result VersionError Text
bump_minor version = do core ← parse_core version; ok (dotted core.major (core.minor + 1) 0)

unfoldable pub bump_major : Text → Result VersionError Text
bump_major version = do core ← parse_core version; ok (dotted (core.major + 1) 0 0)

unfoldable pub bump_patch : Text → Result VersionError Text
bump_patch version = do
  core ← parse_core version
  ok (dotted core.major core.minor (core.patch + 1))

unfoldable pub apply_bump : Text → BumpLevel → Result VersionError Text
unfolding bump_major bump_minor bump_patch
apply_bump current BumpLevel.major = bump_major current
apply_bump current BumpLevel.minor = bump_minor current
apply_bump current BumpLevel.patch = bump_patch current
apply_bump current BumpLevel.none = ok current

unfoldable pub next_product_version : Option Text → Text → Result VersionError Text
unfolding bump_minor
next_product_version none base_version = bump_minor base_version
next_product_version (some latest) base_version = bump_minor latest
