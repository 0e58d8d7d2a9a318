-- ===== src/Tests/Stores.antt =====
-- app/queries/versions and app/queries/component_dependencies on a small store.
use lavs_core.Queries.Dependencies.Checks.{MayAdd, check_dependency_iff}
use lavs_core.Queries.Versions.Previous.{previous_versions-greatest}
use lavs_core.Prelude.{
  str_eq, ℕ, ◌≡◌, ◌≢◌, ◌≤◌, ◌↔◌, refl, true, false, none, List, [], ◌∷◌, ◌++◌, String, eq_iff,
  arith, ok, In, inl, inr, select, map, length, lookup, put, sort_by, subst, ap, sym,
}
use lavs_core.Text.{codes}
use lavs_core.Domain.BumpLevel.{BumpLevel}
use lavs_core.Domain.DependencyGraph.{would_create_cycle}
use lavs_core.Domain.DependencyGraph.Search.{Reach}
use lavs_core.Domain.DependencyGraph.Acyclic.{IsAcyclic, IsAcyclic-nil, IsAcyclic-added}
use lavs_core.Database.Tables.{
  VersionStatus, active, superseded, default, service, library, Product, Component, Version,
  Dependency, Database, no_rows, World,
}
use lavs_core.Database.Statements.{same_status}
use lavs_core.Queries.Versions.{
  is_active_of, create_version, rollback_version, previous_versions, is_previous, below,
}
use lavs_core.Queries.Versions.Create.{create_version_lem, with_version}
use lavs_core.Queries.Versions.Earlier.{Rollback, rollback_version_lem}
use lavs_core.Queries.Versions.Ledger.{IsLedger}
use lavs_core.Queries.Versions.History.{
  Leads, here, then_create, then_rollback, Leads-IsLedger, Leads-history, history,
}
use lavs_core.Queries.Timeline.{
  versions_of, versions_by_component, version_rows, versions_of-versions_by_component,
}
use lavs_core.Queries.Dependencies.{
  edges_of, component_ids, check_dependency, insert_dependency, add_dependency, remove_dependency,
  impact,
}
use lavs_core.Queries.Dependencies.Edges.{
  IsSound, add_dependency_lem, add_dependency-IsSound, remove_dependency-IsSound,
  insert_dependency-IsSound,
}
use lavs_core.Queries.Dependencies.Impact.{impact_lem}

abbrev pub product : Product
product = record {
  id = "p";
  name = "shop";
  description = none;
  base_version = codes "0.0.0";
  bump_policy = default;
  created_at = 0;
}

abbrev pub api : Component
api = record { id = "api"; product_id = "p"; name = "api"; kind = service }

abbrev pub core : Component
core = record { id = "core"; product_id = "p"; name = "core"; kind = library }

abbrev pub version : String → ℕ → VersionStatus → Version
version id minor status = record {
  id = id;
  component_id = "api";
  major = 1;
  minor = minor;
  patch = 0;
  prerelease = none;
  status = status;
  created_at = 0;
}

-- A product of two components, the first with two versions.
abbrev pub store : Database
store = record no_rows {
  products = product ∷ [];
  components = api ∷ core ∷ [];
  versions = version "v0" 0 superseded ∷ version "v1" 1 active ∷ [];
}

abbrev pub world : World
world = record { db = store; event_bus = none }

pub store-IsLedger : IsLedger store
store-IsLedger = record {
  unique = (refl, (refl, tt));
  known = (refl, (refl, tt));
  single = λ c. few c;
}
  where
    few : (c : String) → length (select (is_active_of c) store.versions) ≤ 1
    few c = unfold same_status in ground arith

create_version_lem_example :
    ((create_version (version "v2" 2 active) world).0 ≡ ok (version "v2" 2 active))
    × ((create_version (version "v2" 2 active) world).1.db
        ≡ with_version (version "v2" 2 active) world)
    × (select (is_active_of "api") (create_version (version "v2" 2 active) world).1.db.versions
        ≡ version "v2" 2 active ∷ [])
create_version_lem_example = create_version_lem (version "v2" 2 active) world refl refl

previous : previous_versions (version "v1" 1 active) store ≡ version "v0" 0 superseded ∷ []
unfolding previous_versions same_status
previous = refl

rollback_version_lem_example : Rollback (version "v1" 1 active) world
rollback_version_lem_example =
    rollback_version_lem (version "v1" 1 active) world store-IsLedger.unique (inr (inl refl)) refl

previous_versions-greatest_example :
    In (version "v0" 0 superseded) store.versions
    × (is_previous (version "v1" 1 active) (version "v0" 0 superseded) ≡ true)
    × ((v : Version)
        → In v store.versions
        → is_previous (version "v1" 1 active) v ≡ true
        → below (version "v0" 0 superseded) v ≡ false)
previous_versions-greatest_example =
    previous_versions-greatest (version "v1" 1 active) (version "v0" 0 superseded) [] store previous

-- A version is created and rolled back.
abbrev pub later : World
later = (rollback_version "v2" (create_version (version "v2" 2 active) world).1).1

pub path : Leads world later
path =
    then_rollback world (create_version (version "v2" 2 active) world).1 "v2"
      (then_create world world (version "v2" 2 active) (here world))

Leads-IsLedger_example : IsLedger later.db
Leads-IsLedger_example = Leads-IsLedger world later path store-IsLedger

Leads-history_example : (added : List Version) × (history later.db ≡ history store ++ added)
Leads-history_example = Leads-history world later path store-IsLedger

abbrev edge : Dependency
edge = record {
  id = "e";
  product_id = "p";
  from_component_id = "api";
  to_component_id = "core";
  created_at = 0;
}

store-IsSound : IsSound store
store-IsSound p = IsAcyclic-nil

may_add : MayAdd edge store
unfolding would_create_cycle lookup put
may_add = record {
  product = refl;
  from_belongs = (api, [], refl, refl);
  to_belongs = (core, [], refl, refl);
  distinct = λ e. absurd (differ e);
  new = refl;
  acyclic = IsAcyclic-added [] "api" "core" IsAcyclic-nil refl;
}
  where
    differ : edge.from_component_id ≡ edge.to_component_id → ⊥
    differ e = cc ((eq_iff edge.from_component_id edge.to_component_id).1 e)

check_dependency_iff_example : (check_dependency edge world ≡ (ok tt, world)) ↔ MayAdd edge store
check_dependency_iff_example = check_dependency_iff edge world (store-IsSound "p")

add_dependency_lem_example :
    ((add_dependency edge world).0 ≡ ok edge)
    × ((add_dependency edge world).1.db ≡ insert_dependency edge store)
add_dependency_lem_example = add_dependency_lem edge world store-IsSound may_add refl

add_dependency-IsSound_example : IsSound (add_dependency edge world).1.db
add_dependency-IsSound_example = add_dependency-IsSound edge world store-IsSound

-- The store with the edge.
abbrev linked : World
linked = record world { db = insert_dependency edge store }

linked-IsAcyclic : IsAcyclic (edges_of "p" linked.db)
linked-IsAcyclic = may_add.acyclic

linked-IsSound : IsSound linked.db
linked-IsSound = insert_dependency-IsSound edge store may_add.acyclic store-IsSound

remove_dependency-IsSound_example : IsSound (remove_dependency "p" "api" "core" linked).1.db
remove_dependency-IsSound_example = remove_dependency-IsSound "p" "api" "core" linked linked-IsSound

impact_lem_example :
    (found : List (String × BumpLevel)) × (impact "p" "core" linked ≡ (ok found, linked))
    × ((c : String)
        → In c (map (λ x. x.0) found) ↔ (
            In c (component_ids "p" linked.db)
            × (c ≢ "core")
            × Reach (edges_of "p" linked.db) c "core"))
impact_lem_example = impact_lem "p" "core" linked linked-IsAcyclic inside refl refl
  where
    inside :
        (a b : String) → In (a, b) (edges_of "p" linked.db) → In b (component_ids "p" linked.db)
    inside a b (inl e) =
        subst (λ c. In c (component_ids "p" linked.db)) (sym (ap (λ x. x.1) e))
          (unfold sort_by in inr (inl refl))
    inside a b (inr m) = absurd m

versions_of-versions_by_component_example :
    (versions_of (versions_by_component "p" store) "api"
      ≡ select (λ v. str_eq v.component_id "api") (version_rows "p" store))
    × ((v : Version)
        → In v (versions_of (versions_by_component "p" store) "api")
          ↔ (In v store.versions × (v.component_id ≡ "api")))
versions_of-versions_by_component_example = versions_of-versions_by_component "p" "api" store refl
