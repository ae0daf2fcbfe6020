-- ===== src/Queue/Endings/Closed.antt =====
-- store/postgres/store.go: the operations whose errors all stand in the variable that the rollback
-- tests.
use qms.Base.{String, Bool, ◌≢◌, inl, inr, Bool-cases}
use qms.Queue.Models.{Error, Ticket, status_text, CreateTicketInput, TicketActionInput}
use qms.Queue.Payload.{Object}
use qms.Queue.Transitions.{valid_transition}
use qms.Queue.Tx.{Platform, State, Tx, Answer, left_open}
use qms.Queue.Tx.Closes.{Closes, closes_rules, Closes-bind, Closes-pure, transact-ends}
use qms.Queue.Rows.{
  not_found, found_empty, found, find_ticket_by_request_id, find_action_request,
  lookup_service_code, ensure_target_service_exists, load_ticket_state,
}
use qms.Queue.Events.{
  insert_ticket_event, insert_event, insert_outbox_event, insert_outbox_event_generic,
  insert_outbox_event_no_show, insert_outbox_event_transfer,
}
use qms.Queue.Requests.{insert_action_request, unless_repeated}
use qms.Queue.Create.{next_ticket_number, create_new, create_body, create_ticket}
use qms.Queue.Actions.{
  StatusChange, explain, change_first, change_body, update_ticket_status, no_show_first,
  no_show_body, apply_no_show, transfer_first, transfer_body, transfer_ticket,
}

module _ {B : Type 0} (P : Platform B) where
  find_ticket_by_request_id-Closes : (r : String) → Closes (find_ticket_by_request_id P r)
  unfolding find_ticket_by_request_id
  find_ticket_by_request_id-Closes r = search closes_rules depth 12

  pub find_action_request-Closes : (a r : String) → Closes (find_action_request P a r)
  unfolding find_action_request
  find_action_request-Closes a r = search closes_rules depth 12

  lookup_service_code-Closes : (a b c : String) → Closes (lookup_service_code P a b c)
  unfolding lookup_service_code
  lookup_service_code-Closes a b c = search closes_rules depth 12

  ensure_target_service_exists-Closes :
      (i : TicketActionInput) → Closes (ensure_target_service_exists P i)
  unfolding ensure_target_service_exists
  ensure_target_service_exists-Closes i = search closes_rules depth 12

  load_ticket_state-Closes : (a b c : String) → Closes (load_ticket_state P a b c)
  unfolding load_ticket_state
  load_ticket_state-Closes a b c = search closes_rules depth 12

  insert_ticket_event-Closes : (i t : String) (b : B) → Closes (insert_ticket_event P i t b)
  unfolding insert_ticket_event
  insert_ticket_event-Closes i t b = search closes_rules depth 12

  insert_event-Closes : (a b c : String) (o : Object) → Closes (insert_event P a b c o)
  unfolding insert_event
  insert_event-Closes a b c o = search (closes_rules, insert_ticket_event-Closes) depth 12

  insert_action_request-Closes :
      (a b c d e f g : String) → Closes (insert_action_request P a b c d e f g)
  unfolding insert_action_request
  insert_action_request-Closes a b c d e f g = search closes_rules depth 12

  next_ticket_number-Closes : (a b : String) → Closes (next_ticket_number P a b)
  unfolding next_ticket_number
  next_ticket_number-Closes a b = search closes_rules depth 12

  unless_repeated-Closes :
      (a r : String) (x : Error) (m : Tx B (Answer (Ticket × Bool)))
      → Closes m
      → Closes (unless_repeated P a r x m)
  unfolding unless_repeated
  unless_repeated-Closes a r x m km =
      Closes-bind _ _ (find_action_request-Closes a r)
        (elim [ not_found ↦ km | found_empty ↦ Closes-pure _ | found t ↦ Closes-pure _ ])

  explain-Closes : {A : Type 0} (i : TicketActionInput) (b : Bool) → Closes (explain P {A = A} i b)
  unfolding explain
  explain-Closes i b = search (closes_rules, load_ticket_state-Closes) depth 12

  create_new-Closes : (i : CreateTicketInput) → Closes (create_new P i)
  unfolding create_new insert_outbox_event
  create_new-Closes i =
      search
        (closes_rules, lookup_service_code-Closes, next_ticket_number-Closes, insert_event-Closes)
        depth 16

  create_body-Closes : (i : CreateTicketInput) → Closes (create_body P i)
  unfolding create_body
  create_body-Closes i =
      search (closes_rules, find_ticket_by_request_id-Closes, create_new-Closes) depth 12

  change_first-Closes : (c : StatusChange) (i : TicketActionInput) → Closes (change_first P c i)
  unfolding change_first insert_outbox_event_generic
  change_first-Closes c i =
      search (closes_rules, explain-Closes, insert_action_request-Closes, insert_event-Closes) depth
        12

  no_show_first-Closes : (b : Bool) (i : TicketActionInput) → Closes (no_show_first P b i)
  unfolding no_show_first insert_outbox_event_no_show
  no_show_first-Closes b i =
      search (closes_rules, explain-Closes, insert_action_request-Closes, insert_event-Closes) depth
        12

  transfer_first-Closes : (i : TicketActionInput) → Closes (transfer_first P i)
  unfolding transfer_first insert_outbox_event_transfer
  transfer_first-Closes i =
      search
        (
          closes_rules, ensure_target_service_exists-Closes, insert_action_request-Closes,
          insert_event-Closes,
        )
        depth 12

  -- For every input, state and pattern of failures, `CreateTicket` and the operations on one ticket
  -- but the recall end their transaction: none leaves it open.
  pub actions_end :
      (s : State B) (i : CreateTicketInput) (c : StatusChange) (a : TicketActionInput) (b : Bool)
      → ((create_ticket P i s).ended ≢ left_open)
        × ((update_ticket_status P c a s).ended ≢ left_open)
        × ((apply_no_show P a b s).ended ≢ left_open)
        × ((transfer_ticket P a s).ended ≢ left_open)
  unfolding create_ticket update_ticket_status apply_no_show transfer_ticket change_body
      no_show_body transfer_body
  actions_end s i c a b = (
    transact-ends P _ s (create_body-Closes i),
    elim (Bool-cases (valid_transition c.action (status_text c.from_status))) [
      | inl t ↦
          rw t (transact-ends P _ s (unless_repeated-Closes _ _ _ _ (change_first-Closes c a)))
      | inr t ↦ rw t (λ q. cc)
    ],
    transact-ends P _ s (unless_repeated-Closes _ _ _ _ (no_show_first-Closes b a)),
    transact-ends P _ s (unless_repeated-Closes _ _ _ _ (transfer_first-Closes a)),
  )
