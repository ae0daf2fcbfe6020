-- ===== src/Queue/Rehydrate.antt =====
-- services/queue-service/internal/store/ticket_events.go: a ticket from its log.
use qms.Base.{ℕ, String, Option, none, some, List, [], ◌∷◌, ◌=?◌, if◌then◌else◌}
use qms.Queue.Models.{Ticket, no_ticket_value, failure}
use qms.Queue.Payload.{EventPayload}
use qms.Queue.Tx.{Platform, Answer, answered, refused}

pub record TicketEvent (B : Type 0) : Type 0 where
  pub ticket_id : String
  pub ticket_seq : ℕ
  pub type : String
  pub payload : B
  pub created_at : ℕ
  pub prev_hash : String
  pub hash : String

-- `if new != "" { field = new }`
abbrev pub replace_text : String → String → String
replace_text new old = if new =? "" then old else new

-- `if new != nil { field = new }`
abbrev pub replace {ℓ} : {A : Type ℓ} → Option A → Option A → Option A
replace none old = old
replace (some a) old = some a

abbrev pub replace_value {ℓ} : {A : Type ℓ} → Option A → A → A
replace_value none old = old
replace_value (some a) old = a

-- One round of the loop, after the payload was decoded.
unfoldable pub apply_payload : EventPayload → Ticket → Ticket
apply_payload p t = record t {
  ticket_id = replace_text p.ticket_id t.ticket_id;
  ticket_number = replace_text p.ticket_number t.ticket_number;
  tenant_id = replace_text p.tenant_id t.tenant_id;
  branch_id = replace_text p.branch_id t.branch_id;
  service_id = replace_text p.to_service_id (replace_text p.service_id t.service_id);
  status = replace_text p.status t.status;
  created_at = replace_value p.created_at t.created_at;
  called_at = replace p.called_at t.called_at;
  served_at = replace p.served_at t.served_at;
  completed_at = replace p.completed_at t.completed_at;
  counter_id = replace p.counter_id t.counter_id;
}

module _ {B : Type 0} (P : Platform B) where
  -- One round of the loop.
  unfoldable pub apply_event : TicketEvent B → Ticket → Answer Ticket
  apply_event e t = if P.is_empty e.payload then answered t else elim (P.unmarshal e.payload) [
    | none ↦ refused failure
    | some p ↦ answered (apply_payload p t)
  ]

  unfoldable pub rehydrate_from : Ticket → List (TicketEvent B) → Answer Ticket
  rehydrate_from t [] = answered t
  rehydrate_from t (e ∷ es) = elim (apply_event e t) [
    | refused x ↦ refused x
    | answered t' ↦ rehydrate_from t' es
  ]

  unfoldable pub rehydrate_ticket : List (TicketEvent B) → Answer Ticket
  unfolding rehydrate_from
  rehydrate_ticket events = rehydrate_from no_ticket_value events
