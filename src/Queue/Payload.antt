-- ===== src/Queue/Payload.antt =====
-- The payload of an event: the map that the store hands to encoding/json, and `eventPayload` of
-- services/queue-service/internal/store/ticket_events.go, which it reads back.
use qms.Base.{ℕ, String, Bool, Option, List}

-- The values that the store puts into such a map; `null` is a nil pointer.
pub data Value : Type 0 where
  text : String → Value
  time : ℕ → Value
  flag : Bool → Value
  null : Value

abbrev pub Object : Type 0
Object = List (String × Value)

pub record EventPayload : Type 0 where
  pub ticket_id : String
  pub ticket_number : String
  pub status : String
  pub tenant_id : String
  pub branch_id : String
  pub service_id : String
  pub from_service_id : String
  pub to_service_id : String
  pub created_at : Option ℕ
  pub called_at : Option ℕ
  pub served_at : Option ℕ
  pub completed_at : Option ℕ
  pub counter_id : Option String
