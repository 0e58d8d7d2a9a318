-- ===== src/Tests/Releases.antt =====
-- app/queries/releases on the small store.
use lavs_core.Queries.Bumps.{ActiveRow, active_rows, Derived, derive_default, derive}
use lavs_core.Prelude.{
  ◌≡◌, ◌⊎◌, Option, err, refl, true, false, none, some, List, [], ◌∷◌, String, ok, In, inl, inr,
  map, Map, lookup, put, sort_by, subst, sym,
}
use lavs_core.Text.{Text, codes, int, split, before, decimal}
use lavs_core.Domain.BumpLevel.{BumpLevel, max_level}
use lavs_core.Domain.ChangeClassifier.{VersionTuple, classify_change}
use lavs_core.Domain.DependencyGraph.{Edge}
use lavs_core.Domain.BumpPropagation.{derive_product_bump}
use lavs_core.Domain.ProductVersion.{Core, apply_bump, parse_core, dotted}
use lavs_core.Database.Tables.{active, default, Error, Release, ReleaseResponse}
use lavs_core.Database.Statements.{same_status}
use lavs_core.Queries.Releases.{
  CutRequest, cut_fresh, cut_release_route, release_manifest, format_version,
}
use lavs_core.Queries.Releases.Cut.{IsCurrent, IsCut}
use lavs_core.Queries.Releases.Cut.Latest.{IsLatest}
use lavs_core.Queries.Releases.Cut.Outcome.{MayCut, cut_fresh_cases}
use lavs_core.Queries.Releases.Replay.{cut_release_route-idempotent}
use lavs_core.Queries.Releases.OwnLevels.{IsGone}
use lavs_core.Queries.Releases.Derivation.{IsActive, change_of, derive_default-closed, derive-total}
use lavs_core.Tests.Stores.{api, product, world, store, version}

abbrev request : CutRequest
request = record { product_id = "p"; label = none; notes = none; idempotency_key = some "k" }

abbrev response : ReleaseResponse
response = record {
  release = record {
    id = "r";
    product_id = "p";
    product_version = codes "0.1.0";
    label = none;
    notes = none;
    idempotency_key = some "k";
    bump_level = BumpLevel.minor;
    bump_rationale = some (record {
      policy = default;
      product_bump = BumpLevel.minor;
      removed_any = false;
      components = ("api", (BumpLevel.minor, BumpLevel.minor)) ∷ [];
    });
    created_at = 7;
  };
  components =
      record {
        component_id = "api";
        name = "api";
        version_id = "v1";
        version = codes "1.1.0";
        change_level = some BumpLevel.minor;
      }
      ∷ [];
}

derive-total_example : (d : Derived) × (derive "p" default [] none store ≡ some d)
derive-total_example = derive-total "p" default [] none store

abbrev rows : List ActiveRow
rows =
    record { component_id = "api"; name = "api"; version = version "v1" 1 active }
    ∷ record {
      component_id = "core";
      name = "core";
      version = record (version "w1" 0 active) { component_id = "core" };
    }
    ∷ []

-- `api` depends on `core`.
abbrev edges : List Edge
edges = ("api", "core") ∷ []

abbrev prior : Map VersionTuple
prior = ("api", record { major = 1; minor = 0; patch = 0; prerelease = none }) ∷ []

-- The first cut of the product.
first_cut : (cut_fresh request "r" 7 product world).0 ≡ ok (response, true)
unfolding cut_fresh sort_by same_status lookup put derive_product_bump apply_bump max_level
    classify_change parse_core split before int dotted release_manifest decimal format_version
first_cut = refl

first_may : MayCut request "r" product world
unfolding parse_core split before int same_status active_rows sort_by
first_may = record {
  product_is_stored = (product, inl refl, refl);
  fresh = λ r m. absurd m;
  unpinned = λ x m. absurd m;
  has_active = (
    record { component_id = "api"; name = "api"; version = version "v1" 1 active },
    (api, version "v1" 1 active, inl refl, refl, inr (inl refl), (refl, refl, refl)),
  );
  one_active = (refl, tt);
  readable = readable;
}
  where
    readable :
        (latest : Option Release) (current : Text)
        → IsLatest "p" world.db latest
        → IsCurrent product latest current
        → (c : Core) × (parse_core current ≡ ok c)
    readable none current none_stored e = (record { major = 0; minor = 0; patch = 0 }, rw e refl)
    readable (some r) current (m, mine, newest) e = absurd m

cut_fresh_cases_example :
    ((response : ReleaseResponse) × ((cut_fresh request "r" 7 product world).0
        ≡ ok (response, true))
      × IsCut request "r" 7 product world (cut_fresh request "r" 7 product world).1 response)
    ⊎ ((e : Error) × ((cut_fresh request "r" 7 product world).0 ≡ err e)
        × (¬ (MayCut request "r" product world)))
cut_fresh_cases_example = cut_fresh_cases request "r" 7 product world

first_route : (cut_release_route request "r" 7 world).0 ≡ ok response
unfolding cut_release_route sort_by same_status lookup put derive_product_bump apply_bump max_level
    classify_change parse_core split before int dotted release_manifest decimal format_version
first_route = refl

cut_release_route-idempotent_example :
    cut_release_route request "s" 9 (cut_release_route request "r" 7 world).1
    ≡ (ok response, (cut_release_route request "r" 7 world).1)
cut_release_route-idempotent_example =
    cut_release_route-idempotent request "k" "r" "s" 7 9 world response refl first_route

inside : (u v : String) → In (u, v) edges → IsActive prior rows u × IsActive prior rows v
inside u v (inl e) =
    subst (λ (x : Edge). IsActive prior rows x.0 × IsActive prior rows x.1) (sym e)
      ((_, inl refl, refl), (_, inr (inl refl), refl))
inside u v (inr m) = absurd m

derive_default-closed_example :
    (d : Derived) × (derive_default prior rows edges ≡ some d)
    × (IsGone prior rows → d.bump_level ≡ BumpLevel.major)
    × ((IsGone prior rows → ⊥) → d.bump_level ≡ max_level (map (change_of prior rows) rows))
    × ((r : ActiveRow)
        → In r rows
        → lookup r.component_id d.change_by_component ≡ some (change_of prior rows r))
derive_default-closed_example = derive_default-closed prior rows edges (refl, (refl, tt)) inside
