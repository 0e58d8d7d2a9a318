-- ===== src/Events.antt =====
-- app/events: domain events and the bus that fans them out.
pub mod EventBus
use lavs_core.Prelude.{String}

-- app/events/event_type.py
pub data EventType : Type 0 where
  version_created version_rolled_back release_cut dependency_added dependency_removed : EventType

-- app/events/domain_event.py; `body` is the field `data`.
pub record DomainEvent (Body : Type 0) : Type 0 where
  pub event_type : EventType
  pub product_id : String
  pub body : Body
