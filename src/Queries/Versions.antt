-- ===== src/Queries/Versions.antt =====
-- app/queries/versions and app/queries/components/list_component_versions_query.py: the version
-- ledger of a component. The new identifier and the clock's reading are arguments.
pub mod Create
pub mod Previous
pub mod Statuses
pub mod Rollback
pub mod Ledger
pub mod History
pub mod Earlier
use lavs_core.Prelude.{
  ℕ, Bool, true, false, not, ◌&&◌, ◌||◌, Option, none, some, List, [], ◌∷◌, ◌++◌, String, str_eq,
  any, select, ltb, ◌==◌, if◌then◌else◌, Result, ok, err, sort_by,
}
use mathlib.Core.Option
use lavs_core.Events.{DomainEvent, version_created, version_rolled_back}
use lavs_core.Events.EventBus.{publish}
use lavs_core.Database.Tables.{
  VersionStatus, active, superseded, rolled_back, Component, Version, Body, version_body,
  rollback_body, Database, World, Error, not_found, conflict, key_error, index_error,
}
use lavs_core.Database.Statements.{
  Action, ◌>>=◌, ◌>>◌, pure, raise, gets, modify, insert, first_or, emit, update_where, same_status,
  continue,
}

-- WHERE component_id = ? AND status = 'active'
abbrev pub is_active_of : String → Version → Bool
is_active_of component_id v = str_eq v.component_id component_id && same_status v.status active

-- UPDATE versions SET status = ? WHERE ...
abbrev pub set_status : VersionStatus → (Version → Bool) → Database → Database
set_status status p db = record db {
  versions = update_where p (λ v. record v { status = status }) db.versions;
}

-- `_SUPERSEDE_ACTIVE`
abbrev pub supersede_active : String → Database → Database
supersede_active component_id = set_status superseded (is_active_of component_id)

-- `_MARK_STATUS`
abbrev pub mark_status : VersionStatus → String → Database → Database
mark_status status id = set_status status (λ v. str_eq v.id id)

-- The primary key of `versions` and its foreign key.
abbrev pub may_insert_version : Version → Database → Bool
may_insert_version v db =
    not (any (λ w. str_eq w.id v.id) db.versions)
    && any (λ c. str_eq c.id v.component_id) db.components

abbrev pub insert_version : Version → Database → Database
insert_version v db = record db { versions = db.versions ++ v ∷ [] }

-- WHERE id = ?
abbrev pub versions_with_id : String → Database → List Version
versions_with_id id db = select (λ v. str_eq v.id id) db.versions

abbrev pub components_with_id : String → Database → List Component
components_with_id id db = select (λ c. str_eq c.id id) db.components

-- `CreateVersionQuery.apply`; the new row is an argument, with its component's id.
unfoldable pub create_version : Version → Action Version
create_version row = do
  component ← gets (components_with_id row.component_id)
  found ← first_or not_found component
  modify (supersede_active row.component_id)
  let version = record row { status = active }
  insert (may_insert_version version) (insert_version version)
  rows ← gets (versions_with_id version.id)
  created ← first_or index_error rows
  emit (record {
    event_type = version_created;
    product_id = found.product_id;
    body = version_body created.component_id created;
  })
  pure created

-- `major < ? OR (major = ? AND minor < ?) OR (major = ? AND minor = ? AND patch < ?)`
abbrev pub below : Version → Version → Bool
below v w =
    ltb v.major w.major
    || ((v.major == w.major && ltb v.minor w.minor)
        || (v.major == w.major && (v.minor == w.minor && ltb v.patch w.patch)))

-- ORDER BY major DESC, minor DESC, patch DESC
abbrev pub descending : Version → Version → Bool
descending v w = below w v

-- The condition of `_SELECT_PREVIOUS`.
abbrev pub is_previous : Version → Version → Bool
is_previous target v =
    str_eq v.component_id target.component_id
    && (not (str_eq v.id target.id) && (not (same_status v.status rolled_back) && below v target))

-- `_SELECT_PREVIOUS`, whose LIMIT 1 is the head. Rows of the same number are taken in the order in
-- which they are stored, which SQL leaves open.
unfoldable pub previous_versions : Version → Database → List Version
unfolding sort_by
previous_versions target db = sort_by descending (select (is_previous target) db.versions)

-- The event of a rollback; the product is looked up only if there is a bus.
unfoldable pub emit_rollback : Version → Version → Action (Unit {0})
emit_rollback target reactivated w = elim w.event_bus [
  | none ↦ (ok tt, w)
  | some bus ↦
      (do
        components ← gets (components_with_id target.component_id)
        component ← first_or key_error components
        emit (record {
          event_type = version_rolled_back;
          product_id = component.product_id;
          body = rollback_body target.component_id target.id reactivated.id;
        }))
        w
]

-- The three updates of a rollback.
abbrev pub reactivate : Version → Version → Database → Database
reactivate target previous db =
    mark_status active previous.id
      (supersede_active target.component_id (mark_status rolled_back target.id db))

-- `RollbackVersionQuery.apply`
unfoldable pub rollback_version : String → Action Version
unfolding previous_versions emit_rollback
rollback_version version_id = do
  targets ← gets (versions_with_id version_id)
  target ← first_or not_found targets
  candidates ← gets (previous_versions target)
  previous ← first_or conflict candidates
  modify (mark_status rolled_back target.id)
  modify (supersede_active target.component_id)
  modify (mark_status active previous.id)
  rows ← gets (versions_with_id previous.id)
  reactivated ← first_or index_error rows
  emit_rollback target reactivated
  pure reactivated

-- `ListComponentVersionsQuery.apply`
unfoldable pub list_component_versions : String → Action (List Version)
unfolding sort_by
list_component_versions component_id = do
  components ← gets (components_with_id component_id)
  first_or not_found components
  gets (λ db. sort_by descending (select (λ v. str_eq v.component_id component_id) db.versions))
