-- ===== src/Domain/ProductVersion/Bumps.antt =====
-- What a bump does to the three numbers.
use lavs_core.Prelude.{ℕ, ◌+◌, ◌<◌, ◌≡◌, ◌≢◌, ◌↔◌, ◌⊎◌, inl, refl, ap, sym, ◌∙◌, [], ok, err, arith}
use mathlib.Core.List.{append-nil}
use lavs_core.Text.{Text}
use lavs_core.Domain.BumpLevel.{BumpLevel}
use lavs_core.Domain.ProductVersion.{VersionError, Core, parse_core, dotted, apply_bump}
use lavs_core.Domain.ProductVersion.Parsing.{parse_core-dotted}

-- The numbers after a bump.
unfoldable pub bumped : BumpLevel → Core → Core
bumped BumpLevel.major c = record { major = c.major + 1; minor = 0; patch = 0 }
bumped BumpLevel.minor c = record { major = c.major; minor = c.minor + 1; patch = 0 }
bumped BumpLevel.patch c = record { major = c.major; minor = c.minor; patch = c.patch + 1 }
bumped BumpLevel.none c = c

-- The order of versions.
abbrev pub Precedes : Core → Core → Type 0
Precedes a b =
    (a.major < b.major)
    ⊎ ((a.major ≡ b.major) × ((a.minor < b.minor) ⊎ ((a.minor ≡ b.minor) × (a.patch < b.patch))))

parse_core-plain :
    (a b c : ℕ) → parse_core (dotted a b c) ≡ ok (record { major = a; minor = b; patch = c })
parse_core-plain a b c =
    ap parse_core (sym (append-nil (dotted a b c))) ∙ parse_core-dotted a b c [] (inl refl)

-- Applying a bump to a version that parses gives a version that parses to the bumped numbers.
pub apply_bump-parses :
    (current : Text) (level : BumpLevel) (core : Core)
    → parse_core current ≡ ok core
    → (next : Text) × (apply_bump current level ≡ ok next)
      × (parse_core next ≡ ok (bumped level core))
unfolding apply_bump bumped
apply_bump-parses current BumpLevel.major core h =
    (dotted (core.major + 1) 0 0, rw h refl, parse_core-plain (core.major + 1) 0 0)
apply_bump-parses current BumpLevel.minor core h = (
  dotted core.major (core.minor + 1) 0,
  rw h refl,
  parse_core-plain core.major (core.minor + 1) 0,
)
apply_bump-parses current BumpLevel.patch core h = (
  dotted core.major core.minor (core.patch + 1),
  rw h refl,
  parse_core-plain core.major core.minor (core.patch + 1),
)
apply_bump-parses current BumpLevel.none core h = (current, refl, h)

bumped-Precedes :
    (level : BumpLevel) (core : Core) → level ≢ BumpLevel.none → Precedes core (bumped level core)
unfolding bumped
bumped-Precedes level core h = ground arith

-- Applying a bump other than `none` to a version that parses gives a version that parses to
-- greater numbers.
pub apply_bump-Precedes :
    (current : Text) (level : BumpLevel) (core : Core)
    → parse_core current ≡ ok core
    → level ≢ BumpLevel.none
    → (next : Text) × (after : Core) × (apply_bump current level ≡ ok next)
      × (parse_core next ≡ ok after)
      × Precedes core after
apply_bump-Precedes current level core h changed =
    let (next, runs, parsed) = apply_bump-parses current level core h in
    (next, bumped level core, runs, parsed, bumped-Precedes level core changed)

-- Applying a bump fails exactly when the level is not `none` and the current version does not parse,
-- with the error of the parser.
pub apply_bump-err_iff :
    (current : Text) (level : BumpLevel) (e : VersionError)
    → (apply_bump current level ≡ err e) ↔ (level ≢ BumpLevel.none) × (parse_core current ≡ err e)
unfolding apply_bump
apply_bump-err_iff current level e = ground arith
