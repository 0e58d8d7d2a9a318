-- ===== src/Tests/Domain.antt =====
-- app/domain at small inputs: a chain of components, a product version.
use lavs_core.Prelude.{
  ◌≡◌, ◌≢◌, ◌≤◌, ◌↔◌, refl, Bool, true, false, none, some, List, [], ◌∷◌, ◌++◌, arith, String, ok,
  In, inr, Map, keys, lookup, put, map,
}
use lavs_core.Text.{Text, codes, int, signed, split, before, strip, lstrip}
use lavs_core.Domain.BumpLevel.{BumpLevel, order, order-le, propagate, max_level}
use lavs_core.Domain.ChangeClassifier.{
  VersionTuple, or_none, classify_change, classify_change-none_iff, classify_change_symmetric,
}
use lavs_core.Domain.DependencyGraph.{Edge, is_reachable, would_create_cycle}
use lavs_core.Domain.DependencyGraph.Search.{Reach, is_reachable_correct}
use lavs_core.Domain.DependencyGraph.Adjacency.{targets}
use lavs_core.Domain.DependencyGraph.Acyclic.{
  IsAcyclic, IsAcyclic-nil, IsAcyclic-added, would_create_cycle_correct,
}
use lavs_core.Domain.BumpPropagation.{base_level, effective_levels, derive_product_bump}
use lavs_core.Domain.BumpPropagation.Dependencies.{IsNode, IsMember}
use lavs_core.Domain.BumpPropagation.Levels.{
  level_in, own_level, effective_levels_bounds, effective_levels-solves,
}
use lavs_core.Domain.BumpPropagation.Reaches.{Source, effective_levels-reaches}
use lavs_core.Domain.BumpPropagation.ProductBump.{own_values, removal, derive_product_bump-eq-own}
use lavs_core.Domain.ProductVersion.{Core, apply_bump, parse_core, dotted}
use lavs_core.Domain.ProductVersion.Parsing.{parse_core-dotted}
use lavs_core.Domain.ProductVersion.Bumps.{bumped, Precedes, apply_bump-parses, apply_bump-Precedes}

-- `api` depends on `core`, `core` on `base`.
abbrev chain : List Edge
chain = ("api", "core") ∷ ("core", "base") ∷ []

chain-IsAcyclic : IsAcyclic chain
unfolding would_create_cycle lookup put
chain-IsAcyclic =
    IsAcyclic-added (("api", "core") ∷ []) "core" "base"
      (IsAcyclic-added [] "api" "core" IsAcyclic-nil refl) refl

-- Only `base` has changed.
abbrev own : Map BumpLevel
own = ("api", BumpLevel.none) ∷ ("core", BumpLevel.none) ∷ ("base", BumpLevel.major) ∷ []

would_create_cycle_correct_example :
    (b : Bool) × (would_create_cycle chain "base" "api" ≡ some b)
    × ((b ≡ false) ↔ IsAcyclic (chain ++ ("base", "api") ∷ []))
would_create_cycle_correct_example = would_create_cycle_correct chain "base" "api" chain-IsAcyclic

is_reachable_correct_example :
    (b : Bool) × (is_reachable chain "api" "base" ≡ some b)
    × ((b ≡ true) ↔ Reach chain "api" "base")
is_reachable_correct_example = is_reachable_correct chain "api" "base"

effective_levels-solves_example :
    (result : Map BumpLevel) × (effective_levels own chain ≡ some result)
    × ((n : String)
        → IsMember own chain n
        → lookup n result
          ≡ some (
              max_level (
                own_level own chain n
                ∷ map (λ d. propagate (level_in result d)) (targets chain n))))
effective_levels-solves_example = effective_levels-solves own chain chain-IsAcyclic

effective_levels-reaches_example :
    (result : Map BumpLevel) × (effective_levels own chain ≡ some result)
    × ((n : String)
        → IsMember own chain n
        → (level_in result n ≢ BumpLevel.none) ↔ Source own chain n)
effective_levels-reaches_example = effective_levels-reaches own chain chain-IsAcyclic

effective_levels_bounds_example :
    (result : Map BumpLevel) × (effective_levels own chain ≡ some result)
    × ((n : String)
        → IsNode own chain n
        → (l : BumpLevel) × (lookup n result ≡ some l)
          × (order (base_level own n) ≤ order l)
          × (order l ≤ 3))
effective_levels_bounds_example = effective_levels_bounds own chain 3 at_most_major
  where
    at_most_major : (n : String) → IsNode own chain n → order (base_level own n) ≤ 3
    at_most_major n node = order-le (base_level own n)

inside : (u v : String) → In (u, v) chain → In u (keys own) × In v (keys own)
inside u v m = ground arith

derive_product_bump-eq-own_example :
    derive_product_bump own chain true ≡ some (max_level (own_values own ++ removal true))
derive_product_bump-eq-own_example = derive_product_bump-eq-own own chain true inside

-- `base` has no active version.
abbrev active_two : Map BumpLevel
active_two = ("api", BumpLevel.none) ∷ ("core", BumpLevel.none) ∷ []

abbrev current : Text
current = codes "1.2.3-rc1"

abbrev parsed : Core
parsed = record { major = 1; minor = 2; patch = 3 }

current-parses : parse_core current ≡ ok parsed
unfolding parse_core int signed split before strip lstrip
current-parses = refl

apply_bump-parses_example :
    (next : Text) × (apply_bump current BumpLevel.minor ≡ ok next)
    × (parse_core next ≡ ok (bumped BumpLevel.minor parsed))
apply_bump-parses_example = apply_bump-parses current BumpLevel.minor parsed current-parses

apply_bump-Precedes_example :
    (next : Text) × (after : Core) × (apply_bump current BumpLevel.patch ≡ ok next)
    × (parse_core next ≡ ok after)
    × Precedes parsed after
apply_bump-Precedes_example =
    apply_bump-Precedes current BumpLevel.patch parsed current-parses (λ e. cc)

parse_core-dotted_example :
    parse_core (dotted 10 0 7 ++ codes "-beta") ≡ ok (record { major = 10; minor = 0; patch = 7 })
parse_core-dotted_example = parse_core-dotted 10 0 7 (codes "-beta") (inr (codes "beta", refl))

abbrev before_release : VersionTuple
before_release = record { major = 1; minor = 0; patch = 0; prerelease = some "rc1" }

abbrev after_release : VersionTuple
after_release = record { major = 1; minor = 0; patch = 0; prerelease = none }

abbrev next_release : VersionTuple
next_release = record { major = 1; minor = 1; patch = 0; prerelease = none }

classify_change-none_iff_example :
    (classify_change (some before_release) after_release ≡ BumpLevel.none)
    ↔ (before_release.major ≡ after_release.major)
      × (before_release.minor ≡ after_release.minor)
      × (before_release.patch ≡ after_release.patch)
      × (or_none before_release.prerelease ≡ or_none after_release.prerelease)
classify_change-none_iff_example = classify_change-none_iff before_release after_release

classify_change_symmetric_example :
    classify_change (some before_release) next_release
    ≡ classify_change (some next_release) before_release
classify_change_symmetric_example = classify_change_symmetric before_release next_release
