-- ===== src/Queue/Repeats.antt =====
-- store/postgres/store.go: the answers to repeated requests, on a database that does not fail.
use qms.Base.{String, Bool, false, some, ◌≡◌, refl, ◌=?◌, maybe, find}
use qms.Queue.Models.{status_text, Ticket, no_ticket_value, Error, text_or_empty}
use qms.Queue.Transitions.{valid_transition}
use qms.Queue.Db.{TicketRow, ActionRequest}
use qms.Queue.Tx.{Platform, State, Tx, Answer, answered, Done, committed, ◌>>=◌, pure, transact}
use qms.Queue.Tx.Quiet.{IsQuiet, query_quiet, transact_quiet}
use qms.Queue.Rows.{find_action_request, scan_called}
use qms.Queue.Requests.{unless_repeated}
use qms.Queue.CallNext.{call_next}
use qms.Queue.Actions.{update_ticket_status, emit_ticket_event, apply_no_show, transfer_ticket}
use qms.Queue.Endings.LeftOpen.{stored}
use qms.Queue.Operations.{
  Config, start_serving, complete_ticket, cancel_ticket, hold_ticket, unhold_ticket, no_show_ticket,
  recall_ticket,
}
use qms.Queue.Service.{
  TicketRequest, call, start, complete, cancel, hold, unhold, recall, transfer, no_show, perform,
}
use qms.Queue.Lifecycle.Requests.{action_name}

-- What a repeated request is told of the ticket: most columns as they are now, but not the times of
-- serving and of completion.
abbrev pub repeated_answer : String → TicketRow → Ticket
repeated_answer request_id t = record no_ticket_value {
  ticket_id = t.ticket_id;
  ticket_number = t.ticket_number;
  status = status_text t.status;
  created_at = t.created_at;
  called_at = t.called_at;
  counter_id = t.counter_id;
  branch_id = t.branch_id;
  service_id = t.service_id;
  area_id = text_or_empty t.area_id;
  tenant_id = t.tenant_id;
  request_id = request_id;
}

-- The outcome of a repeated request: that answer, "not applied", a commit, and an unchanged database.
abbrev pub IsReplay : {B : Type 0} → State B → String → TicketRow → Done B (Ticket × Bool) → Type 0
IsReplay s request_id t r =
    (r.answer ≡ answered (repeated_answer request_id t, false))
    × (r.ended ≡ committed)
    × (r.after.db ≡ s.db)

module _ {B : Type 0} (P : Platform B) (quiet : IsQuiet P) (s : State B) (q : ActionRequest)
    (id : String) (t : TicketRow) where
  replay :
      (action request_id : String) (e : Error) (m : Tx B (Answer (Ticket × Bool)))
      → stored action request_id s.db ≡ some q
      → q.ticket_id ≡ some id
      → find (λ (r : TicketRow). r.ticket_id =? id) s.db.tickets ≡ some t
      → IsReplay s request_id t (transact P (unless_repeated P action request_id e m) s)
  unfolding unless_repeated find_action_request scan_called ◌>>=◌ pure maybe
  replay action request_id e m h k there =
      simp (transact_quiet P quiet, query_quiet P quiet, h, k, there, quiet) (refl, refl, refl)

abbrev pub request_id_of : TicketRequest → String
request_id_of (call i) = i.request_id
request_id_of (start i) = i.request_id
request_id_of (complete i) = i.request_id
request_id_of (cancel i) = i.request_id
request_id_of (hold i) = i.request_id
request_id_of (unhold i) = i.request_id
request_id_of (recall i) = i.request_id
request_id_of (transfer i) = i.request_id
request_id_of (no_show i) = i.request_id

-- An operation on a ticket whose request is stored with a ticket that is there, on a database that
-- does not fail: nothing is applied or changed, no event is written, and the transaction is committed.
-- The answer is marked as not applied. It has the ticket's columns as they are now, whatever has become
-- of the ticket since the first answer, without the times of serving and of completion.
pub perform-IsReplay :
    {B : Type 0} (P : Platform B) (c : Config) (r : TicketRequest) (s : State B) (q : ActionRequest)
    (id : String) (t : TicketRow)
    → IsQuiet P
    → stored (action_name r) (request_id_of r) s.db ≡ some q
    → q.ticket_id ≡ some id
    → find (λ (x : TicketRow). x.ticket_id =? id) s.db.tickets ≡ some t
    → IsReplay s (request_id_of r) t (perform P c r s)
unfolding perform call_next start_serving complete_ticket cancel_ticket hold_ticket unhold_ticket
    recall_ticket no_show_ticket update_ticket_status emit_ticket_event apply_no_show
    transfer_ticket valid_transition status_text
perform-IsReplay P c (call i) s q id t quiet h k x = replay P quiet s q id t _ _ _ _ h k x
perform-IsReplay P c (start i) s q id t quiet h k x = replay P quiet s q id t _ _ _ _ h k x
perform-IsReplay P c (complete i) s q id t quiet h k x = replay P quiet s q id t _ _ _ _ h k x
perform-IsReplay P c (cancel i) s q id t quiet h k x = replay P quiet s q id t _ _ _ _ h k x
perform-IsReplay P c (hold i) s q id t quiet h k x = replay P quiet s q id t _ _ _ _ h k x
perform-IsReplay P c (unhold i) s q id t quiet h k x = replay P quiet s q id t _ _ _ _ h k x
perform-IsReplay P c (recall i) s q id t quiet h k x = replay P quiet s q id t _ _ _ _ h k x
perform-IsReplay P c (transfer i) s q id t quiet h k x = replay P quiet s q id t _ _ _ _ h k x
perform-IsReplay P c (no_show i) s q id t quiet h k x = replay P quiet s q id t _ _ _ _ h k x
