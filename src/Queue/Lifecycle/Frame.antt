-- ===== src/Queue/Lifecycle/Frame.antt =====
-- store/postgres/store.go: the parts of the operations that are not about the table `tickets`.
use qms.Base.{ℕ, String, Bool, some, List, ◌≡◌, arith, subst}
use qms.Queue.Models.{Error, Ticket, CallNextInput, TicketActionInput}
use qms.Queue.Db.{Db, TicketRow, EventRow, OutboxEvent, ActionRequest}
use qms.Queue.Payload.{Object}
use qms.Queue.Tx.{Platform, Tx, Answer, exec, statement}
use qms.Queue.Tx.Keeps.{Keeps, keeps_rules, Keeps-statement, Keeps-exec, Keeps-bind, Keeps-pure}
use qms.Queue.Rows.{
  not_found, found_empty, found, find_ticket_by_request_id, find_action_request,
  lookup_service_code, ensure_service_exists, ensure_target_service_exists, counter_allows_service,
  get_counter_status, get_service_policy, load_ticket_state, get_ticket_by_id,
}
use qms.Queue.Events.{append_event, add_outbox, insert_ticket_event, insert_event}
use qms.Queue.Routing.{RoutingState, lock_routing_state, ensure_route, update_routing_state}
use qms.Queue.Requests.{add_action_request, insert_action_request, unless_repeated}

add_action_request-tickets :
    {B : Type 0} (r : ActionRequest) (d : Db B) → d.tickets ≡ (add_action_request r d).tickets
unfolding add_action_request
add_action_request-tickets r d = ground arith

ensure_route-tickets :
    {B : Type 0} (a b c : String) (d : Db B) → d.tickets ≡ (ensure_route a b c d).tickets
unfolding ensure_route
ensure_route-tickets a b c d = ground arith

module _ {B : Type 0} (P : Platform B) (R : List TicketRow → Type 0) where
  abbrev pub OnTickets : Db B → Type 0
  OnTickets d = R d.tickets

  pub find_ticket_by_request_id-Keeps :
      (r : String) → Keeps OnTickets (find_ticket_by_request_id P r)
  unfolding find_ticket_by_request_id
  find_ticket_by_request_id-Keeps r = search keeps_rules depth 12

  pub find_action_request-Keeps : (a r : String) → Keeps OnTickets (find_action_request P a r)
  unfolding find_action_request
  find_action_request-Keeps a r = search keeps_rules depth 12

  pub lookup_service_code-Keeps : (a b c : String) → Keeps OnTickets (lookup_service_code P a b c)
  unfolding lookup_service_code
  lookup_service_code-Keeps a b c = search keeps_rules depth 12

  pub ensure_service_exists-Keeps :
      (i : CallNextInput) → Keeps OnTickets (ensure_service_exists P i)
  unfolding ensure_service_exists
  ensure_service_exists-Keeps i = search keeps_rules depth 12

  pub ensure_target_service_exists-Keeps :
      (i : TicketActionInput) → Keeps OnTickets (ensure_target_service_exists P i)
  unfolding ensure_target_service_exists
  ensure_target_service_exists-Keeps i = search keeps_rules depth 12

  pub counter_allows_service-Keeps : (a b : String) → Keeps OnTickets (counter_allows_service P a b)
  unfolding counter_allows_service
  counter_allows_service-Keeps a b = search keeps_rules depth 12

  pub get_counter_status-Keeps : (a b : String) → Keeps OnTickets (get_counter_status P a b)
  unfolding get_counter_status
  get_counter_status-Keeps a b = search keeps_rules depth 12

  pub get_service_policy-Keeps : (a b c : String) → Keeps OnTickets (get_service_policy P a b c)
  unfolding get_service_policy
  get_service_policy-Keeps a b c = search keeps_rules depth 12

  pub load_ticket_state-Keeps : (a b c : String) → Keeps OnTickets (load_ticket_state P a b c)
  unfolding load_ticket_state
  load_ticket_state-Keeps a b c = search keeps_rules depth 12

  pub get_ticket_by_id-Keeps : (a b c : String) → Keeps OnTickets (get_ticket_by_id P a b c)
  unfolding get_ticket_by_id
  get_ticket_by_id-Keeps a b c = search keeps_rules depth 12

  append_event-tickets :
      (e : EventRow B) (d : Db B) (u : Unit {0}) (d' : Db B)
      → append_event e d ≡ some (u, d')
      → d.tickets ≡ d'.tickets
  unfolding append_event
  append_event-tickets e d u d' h = ground arith

  append_event-Keeps : (e : EventRow B) → Keeps OnTickets (statement P (λ _ d. append_event e d))
  append_event-Keeps e =
      Keeps-statement P _ (λ t d h u d' p. subst R (append_event-tickets e d u d' p) h)

  pub insert_ticket_event-Keeps :
      (i t : String) (b : B) → Keeps OnTickets (insert_ticket_event P i t b)
  unfolding insert_ticket_event
  insert_ticket_event-Keeps i t b = search (keeps_rules, Keeps-exec P, append_event-Keeps)

  add_outbox-tickets :
      (e : OutboxEvent B) (d : Db B) (u : Unit {0}) (d' : Db B)
      → add_outbox e d ≡ some (u, d')
      → d.tickets ≡ d'.tickets
  unfolding add_outbox
  add_outbox-tickets e d u d' h = ground arith

  add_outbox-Keeps : (e : OutboxEvent B) → Keeps OnTickets (statement P (λ _ d. add_outbox e d))
  add_outbox-Keeps e =
      Keeps-statement P _ (λ t d h u d' p. subst R (add_outbox-tickets e d u d' p) h)

  pub insert_event-Keeps : (a b c : String) (o : Object) → Keeps OnTickets (insert_event P a b c o)
  unfolding insert_event
  insert_event-Keeps a b c o =
      search (keeps_rules, add_outbox-Keeps, insert_ticket_event-Keeps) depth 12

  pub insert_action_request-Keeps :
      (a b c d e f g : String) → Keeps OnTickets (insert_action_request P a b c d e f g)
  unfolding insert_action_request
  insert_action_request-Keeps a b c d e f g =
      Keeps-exec P _ (λ d h. subst R (add_action_request-tickets _ d) h)

  pub unless_repeated-Keeps :
      (a r : String) (x : Error) (m : Tx B (Answer (Ticket × Bool)))
      → Keeps OnTickets m
      → Keeps OnTickets (unless_repeated P a r x m)
  unfolding unless_repeated
  unless_repeated-Keeps a r x m km =
      Keeps-bind _ _ (find_action_request-Keeps a r)
        (elim [ not_found ↦ km | found_empty ↦ Keeps-pure _ | found t ↦ Keeps-pure _ ])

  ensure_route-Keeps : (a b c : String) → Keeps OnTickets (exec P (ensure_route a b c))
  ensure_route-Keeps a b c = Keeps-exec P _ (λ d h. subst R (ensure_route-tickets a b c d) h)

  pub lock_routing_state-Keeps : (a b c : String) → Keeps OnTickets (lock_routing_state P a b c)
  unfolding lock_routing_state
  lock_routing_state-Keeps a b c = search (keeps_rules, ensure_route-Keeps) depth 12

  pub update_routing_state-Keeps :
      (a b c : String) (s : RoutingState) (x : String) (y : Bool) (w : ℕ)
      → Keeps OnTickets (update_routing_state P a b c s x y w)
  unfolding update_routing_state
  update_routing_state-Keeps a b c s x y w = Keeps-exec P _ (λ d h. h)
