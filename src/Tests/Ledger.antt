-- ===== src/Tests/Ledger.antt =====
-- app/queries/releases_read, and the manifest of a release after later versions: a product with two
-- releases.
use lavs_core.Prelude.{◌≡◌, refl, map, sort_by, none, some, [], ◌∷◌, String}
use lavs_core.Text.{Text, codes, decimal}
use lavs_core.Domain.BumpLevel.{BumpLevel}
use lavs_core.Database.Tables.{active, Release, World}
use lavs_core.Queries.ReleasesRead.Listing.{Listing, list_releases_cases}
use lavs_core.Queries.Versions.{create_version, rollback_version}
use lavs_core.Queries.Versions.Ledger.{IsLedger}
use lavs_core.Queries.Versions.History.{Leads, here, then_create, then_rollback}
use lavs_core.Queries.Releases.{release_manifest, format_version}
use lavs_core.Queries.Releases.Immutable.{IsPinned, release_manifest-Leads}
use lavs_core.Domain.ProductVersion.{dotted}
use lavs_core.Database.Statements.{same_status}
use lavs_core.Tests.Stores.{store, store-IsLedger, version}

abbrev release : String → Text → Release
release id product_version = record {
  id = id;
  product_id = "p";
  product_version = product_version;
  label = none;
  notes = none;
  idempotency_key = none;
  bump_level = BumpLevel.minor;
  bump_rationale = none;
  created_at = 7;
}

-- Two releases at one time; the second pins a version.
abbrev released_world : World
released_world = record {
  db = record store {
    releases = release "r0" (codes "0.1.0") ∷ release "r1" (codes "0.2.0") ∷ [];
    release_components =
        record {
          release_id = "r1";
          component_id = "api";
          version_id = "v1";
          change_level = some BumpLevel.minor;
        }
        ∷ [];
  };
  event_bus = none;
}

list_releases_cases_example : Listing released_world "p"
list_releases_cases_example = list_releases_cases released_world "p" (refl, (refl, tt))

-- A version is created, and it is rolled back.
abbrev later_world : World
later_world = (rollback_version "v2" (create_version (version "v2" 2 active) released_world).1).1

later_path : Leads released_world later_world
later_path =
    then_rollback released_world (create_version (version "v2" 2 active) released_world).1 "v2"
      (then_create released_world released_world (version "v2" 2 active) (here released_world))

released-IsLedger : IsLedger released_world.db
released-IsLedger = record {
  unique = store-IsLedger.unique;
  known = store-IsLedger.known;
  single = store-IsLedger.single;
}

released-IsPinned : IsPinned released_world.db
released-IsPinned = (refl, tt)

release_manifest-Leads_example :
    release_manifest "r1" later_world.db ≡ release_manifest "r1" released_world.db
release_manifest-Leads_example =
    release_manifest-Leads "r1" released_world later_world later_path released-IsLedger
      released-IsPinned

-- The manifest has the pinned version, and the run has added one.
one_pinned :
    (release_manifest "r1" later_world.db
      ≡ record {
        component_id = "api";
        name = "api";
        version_id = "v1";
        version = codes "1.1.0";
        change_level = some BumpLevel.minor;
      }
        ∷ [])
    × (map (λ v. v.id) later_world.db.versions ≡ "v0" ∷ "v1" ∷ "v2" ∷ [])
unfolding release_manifest rollback_version create_version sort_by same_status format_version dotted
    decimal
one_pinned = (refl, refl)
