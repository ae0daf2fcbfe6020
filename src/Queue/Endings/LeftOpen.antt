-- ===== src/Queue/Endings/LeftOpen.antt =====
-- The returns of the store with an error in hand but none in the variable that the rollback tests.
use qms.Base.{
  ℕ, String, true, false, ◌&&◌, Option, none, some, ◌≡◌, ◌≢◌, refl, ◌=?◌, ◌==◌, maybe, find, any,
}
use qms.Queue.Models.{
  Status, waiting, called, serving, done, no_show, cancelled, held, status_text, TicketActionInput,
  CallNextInput, invalid_state, access_denied, holiday_closed,
}
use qms.Queue.Transitions.{valid_transition}
use qms.Queue.Db.{Db, TicketRow, ActionRequest, ServiceRow, CounterService, AppointmentRow, Holiday}
use qms.Queue.Tx.{Platform, State, ◌>>=◌, pure, leave, left_open, refused}
use qms.Queue.Tx.Quiet.{IsQuiet, query_quiet, transact_quiet}
use qms.Queue.Rows.{
  is_ticket, find_action_request, get_ticket_by_id, scan_full, offers, ensure_service_exists,
  counter_allows_service, find_ticket_by_request_id,
}
use qms.Queue.CallNext.{call_next}
use qms.Queue.Create.{check_in_appointment}
use qms.Queue.Requests.{unless_repeated}
use qms.Queue.Actions.{emit_ticket_event, emit_body, emit_first}
use qms.Queue.Operations.{recall_ticket}

-- The stored request that the lookup finds.
abbrev pub stored : {B : Type 0} → String → String → Db B → Option ActionRequest
stored action request_id d =
    find (λ (r : ActionRequest). r.request_id =? request_id && r.action =? action) d.action_requests

not_called : (s : Status) → s ≢ called → (status_text s =? "called") ≡ false
unfolding status_text
not_called called h = absurd (h refl)
not_called waiting h = refl
not_called serving h = refl
not_called done h = refl
not_called no_show h = refl
not_called cancelled h = refl
not_called held h = refl

-- A first recall of a ticket that is not called, on a database that does not fail, is refused as an
-- invalid state, changes nothing, and leaves its transaction neither committed nor rolled back.
pub recall_left_open :
    {B : Type 0} (P : Platform B) (i : TicketActionInput) (s : State B) (r : TicketRow)
    → IsQuiet P
    → stored "recall" i.request_id s.db ≡ none
    → find (is_ticket i.ticket_id i.tenant_id i.branch_id) s.db.tickets ≡ some r
    → r.status ≢ called
    → ((recall_ticket P i s).ended ≡ left_open)
      × ((recall_ticket P i s).answer ≡ refused invalid_state)
      × ((recall_ticket P i s).after.db ≡ s.db)
unfolding recall_ticket emit_ticket_event valid_transition status_text emit_body emit_first
    unless_repeated find_action_request get_ticket_by_id ◌>>=◌ pure leave maybe scan_full
recall_left_open P i s r quiet fresh there wrong =
    simp (transact_quiet P quiet, query_quiet P quiet, fresh, there, not_called r.status wrong)
      (refl, refl, refl)

-- A first call for an active service of the branch, at a counter that has services, but not the one
-- asked for, on a database that does not fail, is refused with access denied, changes nothing, and
-- leaves its transaction open.
pub denied_left_open :
    {B : Type 0} (P : Platform B) (limit : ℕ) (i : CallNextInput) (s : State B) (v : ServiceRow)
    → IsQuiet P
    → stored "call_next" i.request_id s.db ≡ none
    → find (offers s.db i.service_id i.branch_id i.tenant_id) s.db.services ≡ some v
    → any (λ (c : CounterService). c.counter_id =? i.counter_id) s.db.counter_services ≡ true
    → any
        (λ (c : CounterService). c.counter_id =? i.counter_id && c.service_id =? i.service_id)
        s.db.counter_services
      ≡ false
    → ((call_next P limit i s).ended ≡ left_open)
      × ((call_next P limit i s).answer ≡ refused access_denied)
      × ((call_next P limit i s).after.db ≡ s.db)
unfolding call_next unless_repeated find_action_request ensure_service_exists counter_allows_service
    ◌>>=◌ pure leave maybe
denied_left_open P limit i s v quiet fresh offered limited other =
    simp (transact_quiet P quiet, query_quiet P quiet, fresh, offered, limited, other)
      (refl, refl, refl)

-- The check-in of a scheduled appointment on a holiday of the branch, with a request id that no
-- ticket has, on a database that does not fail, is refused as closed, changes nothing, and leaves its
-- transaction open.
pub holiday_left_open :
    {B : Type 0} (P : Platform B) (request_id tenant_id branch_id appointment_id : String)
    (s : State B) (a : AppointmentRow)
    → IsQuiet P
    → find (λ (r : TicketRow). r.request_id =? request_id) s.db.tickets ≡ none
    → find
        (λ (x : AppointmentRow).
          x.appointment_id =? appointment_id
          && (x.tenant_id =? tenant_id && (x.branch_id =? branch_id && x.status =? "scheduled")))
        s.db.appointments
      ≡ some a
    → any
        (λ (h : Holiday).
          h.tenant_id =? tenant_id && (h.branch_id =? branch_id && h.date == a.scheduled_date))
        s.db.holidays
      ≡ true
    → let r = check_in_appointment P request_id tenant_id branch_id appointment_id s in
      (r.ended ≡ left_open) × (r.answer ≡ refused holiday_closed) × (r.after.db ≡ s.db)
unfolding check_in_appointment find_ticket_by_request_id ◌>>=◌ pure leave maybe
holiday_left_open P request tenant branch appointment s a quiet fresh scheduled closed =
    simp (transact_quiet P quiet, query_quiet P quiet, fresh, scheduled, closed) (refl, refl, refl)
