-- ===== src/Queue/Chain/Requests.antt =====
-- store/store.go: the requests of `TicketStore` and the log of events.
use qms.Base.{String, List, [], ◌∷◌, Bool-cases, inl, inr}
use qms.Base.Int.{ℤ, is_positive}
use qms.Queue.Models.{Status, status_text, TicketActionInput}
use qms.Queue.Transitions.{valid_transition}
use qms.Queue.Tx.{Platform, State}
use qms.Queue.Tx.Keeps.{transact-Keeps}
use qms.Queue.Create.{create_ticket, check_in_appointment}
use qms.Queue.CallNext.{call_body, call_next}
use qms.Queue.Actions.{
  StatusChange, change_body, update_ticket_status, emit_body, emit_ticket_event, no_show_body,
  apply_no_show, transfer_body, transfer_ticket,
}
use qms.Queue.Operations.{Config}
use qms.Queue.AutoNoShow.{auto_no_show}
use qms.Queue.Chain.Linked.{IsChained}
use qms.Queue.Chain.Insert.{Chained, unless_repeated-Chained}
use qms.Queue.Operations.{
  start_serving, complete_ticket, cancel_ticket, hold_ticket, unhold_ticket, no_show_ticket,
  recall_ticket,
}
use qms.Queue.Service.{
  TicketRequest, Request, create, check_in, act, call, start, complete, cancel, hold, unhold,
  recall, transfer, no_show, sweep, perform, serve, run,
}
use qms.Queue.Chain.Operations.{
  create_body-Chained, check_in_body-Chained, change_first-Chained, emit_first-Chained,
  no_show_first-Chained, transfer_first-Chained,
}
use qms.Queue.Chain.Calls.{call_first-Chained, auto_body-Chained}

module _ {B : Type 0} (P : Platform B) (s : State B) (h : IsChained P s.db.ticket_events) where
  update_ticket_status-Chained :
      (c : StatusChange) (i : TicketActionInput) → Chained P (update_ticket_status P c i s).after.db
  unfolding update_ticket_status change_body
  update_ticket_status-Chained c i =
      elim (Bool-cases (valid_transition c.action (status_text c.from_status))) [
        | inl t ↦ rw t (
            transact-Keeps P _ s (unless_repeated-Chained P _ _ _ _ (change_first-Chained P c i)) h)
        | inr t ↦ rw t h
      ]

  emit_ticket_event-Chained :
      (a : String) (x : Status) (e : String) (i : TicketActionInput)
      → Chained P (emit_ticket_event P a x e i s).after.db
  unfolding emit_ticket_event emit_body
  emit_ticket_event-Chained a x e i = elim (Bool-cases (valid_transition a (status_text x))) [
    | inl t ↦
        rw t (
          transact-Keeps P _ s (unless_repeated-Chained P _ _ _ _ (emit_first-Chained P a x e i)) h)
    | inr t ↦ rw t h
  ]

  auto_no_show-Chained : (c : Config) (g b : ℤ) → Chained P (auto_no_show P c g b s).after.db
  unfolding auto_no_show
  auto_no_show-Chained c g b = elim (Bool-cases (is_positive g)) [
    | inl t ↦ rw t (transact-Keeps P _ s (auto_body-Chained P c g _) h)
    | inr t ↦ rw t h
  ]

  perform-Chained : (c : Config) (r : TicketRequest) → Chained P (perform P c r s).after.db
  unfolding perform call_next call_body start_serving complete_ticket cancel_ticket hold_ticket
      unhold_ticket no_show_ticket recall_ticket apply_no_show no_show_body transfer_ticket
      transfer_body
  perform-Chained c (call i) =
      transact-Keeps P _ s (unless_repeated-Chained P _ _ _ _ (call_first-Chained P _ i)) h
  perform-Chained c (start i) = update_ticket_status-Chained _ i
  perform-Chained c (complete i) = update_ticket_status-Chained _ i
  perform-Chained c (cancel i) = update_ticket_status-Chained _ i
  perform-Chained c (hold i) = update_ticket_status-Chained _ i
  perform-Chained c (unhold i) = update_ticket_status-Chained _ i
  perform-Chained c (recall i) = emit_ticket_event-Chained _ _ _ i
  perform-Chained c (transfer i) =
      transact-Keeps P _ s (unless_repeated-Chained P _ _ _ _ (transfer_first-Chained P i)) h
  perform-Chained c (no_show i) =
      transact-Keeps P _ s
        (unless_repeated-Chained P _ _ _ _ (no_show_first-Chained P i.return_to_queue i)) h

pub serve-IsChained :
    {B : Type 0} (P : Platform B) (c : Config) (r : Request) (s : State B)
    → IsChained P s.db.ticket_events
    → IsChained P (serve P c r s).db.ticket_events
unfolding serve create_ticket check_in_appointment
serve-IsChained P c (create i) s h = transact-Keeps P _ s (create_body-Chained P i) h
serve-IsChained P c (check_in x y z w) s h =
    transact-Keeps P _ s (check_in_body-Chained P x y z w) h
serve-IsChained P c (act r) s h = perform-Chained P s h c r
serve-IsChained P c (sweep g b) s h = auto_no_show-Chained P s h c g b

-- After every run of requests, whatever fails, the rows of each ticket in the log of events are
-- numbered from 1 without a gap, each holds the hash of the row before it, and its own hash is that
-- of this hash, the ticket, the type, the number, and a payload and a time whose stored forms the row
-- has, if this was so at the start.
pub run-IsChained :
    {B : Type 0} (P : Platform B) (c : Config) (qs : List Request) (s : State B)
    → IsChained P s.db.ticket_events
    → IsChained P (run P c qs s).db.ticket_events
unfolding run
run-IsChained P c [] s h = h
run-IsChained P c (q ∷ qs) s h = run-IsChained P c qs (serve P c q s) (serve-IsChained P c q s h)
