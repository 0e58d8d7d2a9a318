-- ===== src/Database/Tables.antt =====
-- The tables of app/database/duckdb/ddl.sql as records, the enumerations of app/models/enums, and
-- the errors that a query raises. `created_at` counts ticks of the clock.
use lavs_core.Prelude.{ℕ, Bool, Option, List, [], String, Map}
use lavs_core.Text.{Text}
use lavs_core.Domain.BumpLevel.{BumpLevel}
use lavs_core.Domain.ProductVersion.{VersionError}
use lavs_core.Events.EventBus.{EventBus}

-- app/models/enums/version_status.py
pub data VersionStatus : Type 0 where
  active superseded rolled_back : VersionStatus

-- app/models/enums/bump_policy.py
pub data BumpPolicy : Type 0 where
  legacy default : BumpPolicy

-- app/models/enums/component_kind.py
pub data ComponentKind : Type 0 where
  library service ui cli : ComponentKind

pub record Product : Type 0 where
  pub id : String
  pub name : String
  pub description : Option String
  pub base_version : Text
  pub bump_policy : BumpPolicy
  pub created_at : ℕ

pub record Component : Type 0 where
  pub id : String
  pub product_id : String
  pub name : String
  pub kind : ComponentKind

pub record Version : Type 0 where
  pub id : String
  pub component_id : String
  pub major : ℕ
  pub minor : ℕ
  pub patch : ℕ
  pub prerelease : Option String
  pub status : VersionStatus
  pub created_at : ℕ

-- The object that `_derive` serialises; its JSON text is left out.
pub record Rationale : Type 0 where
  pub policy : BumpPolicy
  pub product_bump : BumpLevel
  pub removed_any : Bool
  pub components : Map (BumpLevel × BumpLevel)

pub record Release : Type 0 where
  pub id : String
  pub product_id : String
  pub product_version : Text
  pub label : Option String
  pub notes : Option String
  pub idempotency_key : Option String
  pub bump_level : BumpLevel
  pub bump_rationale : Option Rationale
  pub created_at : ℕ

pub record ReleaseComponent : Type 0 where
  pub release_id : String
  pub component_id : String
  pub version_id : String
  pub change_level : Option BumpLevel

pub record Dependency : Type 0 where
  pub id : String
  pub product_id : String
  pub from_component_id : String
  pub to_component_id : String
  pub created_at : ℕ

-- app/models/responses/release_component_response_model.py
pub record ReleaseComponentResponse : Type 0 where
  pub component_id : String
  pub name : String
  pub version_id : String
  pub version : Text
  pub change_level : Option BumpLevel

-- app/models/responses/release_response_model.py: the row and its manifest.
pub record ReleaseResponse : Type 0 where
  pub release : Release
  pub components : List ReleaseComponentResponse

-- What the events carry in `data`.
pub data Body : Type 0 where
  version_body : String → Version → Body
  rollback_body : String → String → String → Body
  release_body : ReleaseResponse → Body
  dependency_body : Dependency → Body
  removed_body : String → String → String → String → Body

pub record Database : Type 0 where
  pub products : List Product
  pub components : List Component
  pub versions : List Version
  pub releases : List Release
  pub release_components : List ReleaseComponent
  pub dependencies : List Dependency

abbrev pub no_rows : Database
no_rows = record {
  products = [];
  components = [];
  versions = [];
  releases = [];
  release_components = [];
  dependencies = [];
}

-- What a query raises: `NotFoundError`, `ConflictError`, the driver's constraint violation, the
-- ValueError of a version that does not parse; `key_error` and `index_error` are proved not to occur.
pub data Error : Type 0 where
  not_found conflict constraint key_error index_error : Error
  value_error : VersionError → Error

-- The session and the event bus; the bus is optional in the queries.
pub record World : Type 0 where
  pub db : Database
  pub event_bus : Option (EventBus Body)
