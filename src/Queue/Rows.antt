-- ===== src/Queue/Rows.antt =====
-- services/queue-service/internal/store/postgres/store.go: the queries for one row that the
-- operations share. `scan_…` is a `row.Scan` of the columns that the query lists.
use qms.Base.{
  String, Bool, true, false, ◌&&◌, Option, none, some, ◌=?◌, if◌then◌else◌, maybe, find, any,
}
use qms.Base.Int.{ℤ, pos}
use qms.Queue.Models.{
  Status, status_text, Ticket, no_ticket_value, CallNextInput, TicketActionInput, service_not_found,
  counter_not_found, ticket_not_found, no_rows, text_or_empty,
}
use qms.Queue.Db.{
  Db, TicketRow, ActionRequest, BranchRow, ServiceRow, CounterRow, CounterService, PolicyRow,
}
use qms.Queue.Tx.{Platform, Tx, pure, ◌>>=◌, or_raise, query}

-- The columns of `findTicketByRequestID`.
unfoldable pub scan_created : TicketRow → Ticket
scan_created r = record no_ticket_value {
  ticket_id = r.ticket_id;
  ticket_number = r.ticket_number;
  status = status_text r.status;
  created_at = r.created_at;
  request_id = r.request_id;
  area_id = text_or_empty r.area_id;
  branch_id = r.branch_id;
  service_id = r.service_id;
  tenant_id = r.tenant_id;
}

-- The columns of `findActionRequest`, of `applyNoShow` and of the selections of `CallNext`.
unfoldable pub scan_called : TicketRow → Ticket
scan_called r = record no_ticket_value {
  ticket_id = r.ticket_id;
  ticket_number = r.ticket_number;
  status = status_text r.status;
  created_at = r.created_at;
  called_at = r.called_at;
  counter_id = r.counter_id;
  branch_id = r.branch_id;
  service_id = r.service_id;
  area_id = text_or_empty r.area_id;
  tenant_id = r.tenant_id;
}

-- The columns of the other queries, which add `served_at` and `completed_at`.
unfoldable pub scan_full : TicketRow → Ticket
unfolding scan_called
scan_full r =
    let t : Ticket = scan_called r in
    record t { served_at = r.served_at; completed_at = r.completed_at }

-- `ticket_id = $1 AND tenant_id = $2 AND branch_id = $3`
abbrev pub is_ticket : String → String → String → TicketRow → Bool
is_ticket ticket_id tenant_id branch_id r =
    r.ticket_id =? ticket_id && (r.tenant_id =? tenant_id && r.branch_id =? branch_id)

-- An active service of a branch of the tenant: the join of `services` and `branches`.
abbrev pub offers : {B : Type 0} → Db B → String → String → String → ServiceRow → Bool
offers d service_id branch_id tenant_id s =
    s.service_id =? service_id
    && (s.branch_id =? branch_id
        && (any (λ (b : BranchRow). b.branch_id =? s.branch_id && b.tenant_id =? tenant_id)
              d.branches
            && s.active))

pub record ServicePolicy : Type 0 where
  pub no_show_grace_seconds : ℤ
  pub return_to_queue : Bool
  pub appointment_ratio_percent : ℤ
  pub appointment_window_size : ℤ
  pub appointment_boost_minutes : ℤ

abbrev pub no_policy : ServicePolicy
no_policy = record {
  no_show_grace_seconds = pos 0;
  return_to_queue = false;
  appointment_ratio_percent = pos 0;
  appointment_window_size = pos 0;
  appointment_boost_minutes = pos 0;
}

abbrev scan_policy : PolicyRow → ServicePolicy
scan_policy r = record {
  no_show_grace_seconds = r.no_show_grace_seconds;
  return_to_queue = r.return_to_queue;
  appointment_ratio_percent = r.appointment_ratio_percent;
  appointment_window_size = r.appointment_window_size;
  appointment_boost_minutes = r.appointment_boost_minutes;
}

-- A stored request: none, one without a ticket, or one with the ticket as it is now.
pub data FoundRequest : Type 0 where
  not_found : FoundRequest
  found_empty : FoundRequest
  found : Ticket → FoundRequest

module _ {B : Type 0} (P : Platform B) where
  unfoldable pub find_ticket_by_request_id : String → Tx B (Option Ticket)
  find_ticket_by_request_id request_id = do
    row ← query P (λ d. find (λ (r : TicketRow). r.request_id =? request_id) d.tickets)
    maybe row (pure none) λ r. pure (some (scan_created r))

  unfoldable pub find_action_request : String → String → Tx B FoundRequest
  find_action_request action request_id = do
    row ← query P (λ d.
        find (λ (r : ActionRequest). r.request_id =? request_id && r.action =? action)
          d.action_requests)
    maybe row (pure not_found) λ r. maybe r.ticket_id (pure found_empty) λ ticket_id. do
      ticket_row ← query P (λ d. find (λ (t : TicketRow). t.ticket_id =? ticket_id) d.tickets)
      t ← or_raise ticket_row no_rows
      let ticket : Ticket = scan_called t
      pure (found (record ticket { request_id = request_id }))

  unfoldable pub lookup_service_code : String → String → String → Tx B String
  lookup_service_code service_id branch_id tenant_id = do
    row ← query P (λ d. find (offers d service_id branch_id tenant_id) d.services)
    s ← or_raise row service_not_found
    pure s.code

  unfoldable pub ensure_service_exists : CallNextInput → Tx B (Unit {0})
  ensure_service_exists i = do
    row ← query P (λ d. find (offers d i.service_id i.branch_id i.tenant_id) d.services)
    s ← or_raise row service_not_found
    pure tt

  unfoldable pub ensure_target_service_exists : TicketActionInput → Tx B (Unit {0})
  ensure_target_service_exists i = do
    row ← query P (λ d. find (offers d i.service_id i.branch_id i.tenant_id) d.services)
    s ← or_raise row service_not_found
    pure tt

  -- A counter with no rows in `counter_services` serves every service.
  unfoldable pub counter_allows_service : String → String → Tx B Bool
  counter_allows_service counter_id service_id = do
    some_service ←
        query P (λ d. any (λ (c : CounterService). c.counter_id =? counter_id) d.counter_services)
    if some_service
        then query P (λ d.
          any (λ (c : CounterService). c.counter_id =? counter_id && c.service_id =? service_id)
            d.counter_services)
        else pure true

  unfoldable pub get_counter_status : String → String → Tx B String
  get_counter_status counter_id branch_id = do
    row ← query P (λ d.
        find (λ (c : CounterRow). c.counter_id =? counter_id && c.branch_id =? branch_id)
          d.counters)
    c ← or_raise row counter_not_found
    pure c.status

  unfoldable pub is_counter_available : String → Bool
  is_counter_available status =
      let s = P.to_lower (P.trim_space status) in
      if s =? ""
      then true
      else if s =? "active"
      then true
      else if s =? "available"
      then true
      else s =? "busy"

  unfoldable pub get_service_policy : String → String → String → Tx B (ServicePolicy × Bool)
  get_service_policy tenant_id branch_id service_id = do
    row ← query P (λ d.
        find
          (λ (p : PolicyRow).
            p.tenant_id =? tenant_id && (p.branch_id =? branch_id && p.service_id =? service_id))
          d.policies)
    maybe row (pure (no_policy, false)) λ p. pure (scan_policy p, true)

  -- The status, the counter (empty for NULL) and whether there is such a ticket.
  unfoldable pub load_ticket_state : String → String → String → Tx B (Option (Status × String))
  load_ticket_state ticket_id tenant_id branch_id = do
    row ← query P (λ d. find (is_ticket ticket_id tenant_id branch_id) d.tickets)
    maybe row (pure none) λ r. pure (some (r.status, text_or_empty r.counter_id))

  unfoldable pub get_ticket_by_id : String → String → String → Tx B Ticket
  get_ticket_by_id ticket_id tenant_id branch_id = do
    row ← query P (λ d. find (is_ticket ticket_id tenant_id branch_id) d.tickets)
    r ← or_raise row ticket_not_found
    pure (scan_full r)
