-- ===== src/Queue/Chain/Calls.antt =====
-- store/postgres/store.go: `CallNext` and `AutoNoShow`, and the log of events.
use qms.Base.{
  ℕ, ◌+◌, String, Bool, Option, some, List, [], ◌∷◌, ◌≡◌, if◌then◌else◌, best, arith, subst,
}
use qms.Base.Int.{ℤ}
use qms.Queue.Models.{CallNextInput}
use qms.Queue.Db.{Db, TicketRow}
use qms.Queue.Tx.{Platform, statement, exec}
use qms.Queue.Tx.Keeps.{Keeps, keeps_rules, Keeps-exec, Keeps-bind, Keeps-shadowed}
use qms.Queue.Rows.{
  ensure_service_exists, counter_allows_service, get_counter_status, get_service_policy,
}
use qms.Queue.Events.{insert_outbox_event_called, insert_outbox_event_no_show}
use qms.Queue.Routing.{
  ClassFilter, RoutingState, ensure_route, lock_routing_state, update_routing_state, call_best,
  older, walkin_candidates, appointment_candidates, scheduled_before,
  update_next_walkin_ticket_with_filter, update_next_appointment_ticket_with_filter,
  update_next_walkin_ticket, update_next_appointment_ticket, update_next_ticket,
}
use qms.Queue.CallNext.{call_with_counter, call_first}
use qms.Queue.Operations.{Config}
use qms.Queue.AutoNoShow.{overdue, mark, process_item, item_round, each_item, auto_body}
use qms.Queue.Chain.Linked.{IsChained}
use qms.Queue.Chain.Insert.{Chained, untouched, insert_event-Chained, insert_action_request-Chained}

module _ {B : Type 0} (P : Platform B) where
  call_best-events :
      (i : CallNextInput) (time : ℕ) (o : Option TicketRow) (d : Db B) (a : Option TicketRow)
      (d' : Db B)
      → call_best i time o d ≡ some (a, d')
      → d.ticket_events ≡ d'.ticket_events
  call_best-events i time o d a d' h = ground arith

  walkin-Chained :
      (i : CallNextInput) (time : ℕ) (f : ClassFilter)
      → Keeps (Chained P) (
          statement P
            λ t d. call_best i time (best older (walkin_candidates (P.locked t) i f d.tickets)) d)
  walkin-Chained i time f = untouched P _ (λ t d a d' h. call_best-events i time _ d a d' h)

  appointment-Chained :
      (i : CallNextInput) (time : ℕ) (f : ClassFilter) (cutoff : ℕ)
      → Keeps (Chained P) (
          statement P λ t d.
            call_best i time
              (best
                (scheduled_before d.appointments)
                (appointment_candidates (P.locked t) i f cutoff d))
              d)
  appointment-Chained i time f cutoff =
      untouched P _ (λ t d a d' h. call_best-events i time _ d a d' h)

  update_next_walkin_ticket-Chained :
      (i : CallNextInput) (time : ℕ) (b : Bool)
      → Keeps (Chained P) (update_next_walkin_ticket P i time b)
  unfolding update_next_walkin_ticket update_next_walkin_ticket_with_filter
  update_next_walkin_ticket-Chained i time b = search (keeps_rules, walkin-Chained) depth 12

  update_next_appointment_ticket-Chained :
      (i : CallNextInput) (time cutoff : ℕ) (b : Bool)
      → Keeps (Chained P) (update_next_appointment_ticket P i time cutoff b)
  unfolding update_next_appointment_ticket update_next_appointment_ticket_with_filter
  update_next_appointment_ticket-Chained i time cutoff b =
      search (keeps_rules, appointment-Chained) depth 12

  update_next_ticket-Chained :
      (i : CallNextInput) (time : ℕ) (a b : Bool) (cutoff : ℕ)
      → Keeps (Chained P) (update_next_ticket P i time a b cutoff)
  unfolding update_next_ticket
  update_next_ticket-Chained i time a b cutoff =
      search
        (keeps_rules, update_next_walkin_ticket-Chained, update_next_appointment_ticket-Chained)
        depth 12

  ensure_route-Chained : (a b c : String) → Keeps (Chained P) (exec P (ensure_route a b c))
  unfolding ensure_route
  ensure_route-Chained a b c = Keeps-exec P _ (λ d h. subst (IsChained P) (ground arith) h)

  lock_routing_state-Chained : (a b c : String) → Keeps (Chained P) (lock_routing_state P a b c)
  unfolding lock_routing_state
  lock_routing_state-Chained a b c = search (keeps_rules, ensure_route-Chained) depth 12

  update_routing_state-Chained :
      (a b c : String) (s : RoutingState) (x : String) (y : Bool) (w : ℕ)
      → Keeps (Chained P) (update_routing_state P a b c s x y w)
  unfolding update_routing_state
  update_routing_state-Chained a b c s x y w = Keeps-exec P _ (λ d h. h)

  call_with_counter-Chained :
      (limit : ℕ) (i : CallNextInput) → Keeps (Chained P) (call_with_counter P limit i)
  unfolding call_with_counter insert_outbox_event_called get_service_policy
  call_with_counter-Chained limit i =
      search
        (
          keeps_rules,
          lock_routing_state-Chained,
          update_next_ticket-Chained,
          update_routing_state-Chained,
          insert_event-Chained P,
          insert_action_request-Chained P,
        )
        depth 16

  pub call_first-Chained :
      (limit : ℕ) (i : CallNextInput) → Keeps (Chained P) (call_first P limit i)
  unfolding call_first ensure_service_exists counter_allows_service get_counter_status
  call_first-Chained limit i = search (keeps_rules, call_with_counter-Chained) depth 12

module _ {B : Type 0} (P : Platform B) (c : Config) where
  mark-Chained : (b : Bool) (id : String) → Keeps (Chained P) (mark P c b id)
  unfolding mark
  mark-Chained b id = Keeps-exec P _ (λ d h. h)

  item_round-Chained : (grace : ℤ) (r : TicketRow) → Keeps (Chained P) (item_round P c grace r)
  unfolding item_round process_item insert_outbox_event_no_show get_service_policy
  item_round-Chained grace r = search (keeps_rules, mark-Chained, insert_event-Chained P) depth 16

  each_item-Chained :
      (grace : ℤ) (items : List TicketRow) (n : ℕ) → Keeps (Chained P) (each_item P c grace items n)
  unfolding each_item
  each_item-Chained grace [] n = search keeps_rules
  each_item-Chained grace (r ∷ rs) n =
      Keeps-bind _ _ (Keeps-shadowed _ (item_round-Chained grace r))
        (λ counted. each_item-Chained grace rs (if counted then n + 1 else n))

  overdue-statement :
      (time grace batch : ℕ)
      → Keeps
          (Chained P)
          (statement P (λ t d. some (overdue (P.locked t) time grace batch d.tickets, d)))
  overdue-statement time grace batch = untouched P _ (λ t d a d' h. ground arith)

  pub auto_body-Chained : (grace : ℤ) (batch : ℕ) → Keeps (Chained P) (auto_body P c grace batch)
  unfolding auto_body
  auto_body-Chained grace batch =
      search (keeps_rules, each_item-Chained, overdue-statement) depth 12
