-- ===== src/Queue/Chain/Operations.antt =====
-- store/postgres/store.go: the operations on one ticket and the log of events.
use qms.Base.{String, Bool, maybe, arith}
use qms.Queue.Models.{Status, CreateTicketInput, TicketActionInput}
use qms.Queue.Db.{TicketRow}
use qms.Queue.Tx.{Platform, statement}
use qms.Queue.Tx.Keeps.{Keeps, keeps_rules, Keeps-exec, Keeps-write}
use qms.Queue.Rows.{
  find_ticket_by_request_id, lookup_service_code, ensure_target_service_exists, load_ticket_state,
  get_ticket_by_id,
}
use qms.Queue.Events.{
  insert_outbox_event, insert_outbox_event_generic, insert_outbox_event_transfer,
  insert_outbox_event_no_show,
}
use qms.Queue.Create.{
  insert_unless_requested, insert_row, take_number, next_ticket_number, create_new, create_body,
  check_in_new, check_in_body,
}
use qms.Queue.Actions.{
  update_one, transfer_one, StatusChange, explain, change_first, emit_first, no_show_first,
  transfer_first,
}
use qms.Queue.Chain.Insert.{Chained, untouched, insert_event-Chained, insert_action_request-Chained}

module _ {B : Type 0} (P : Platform B) where
  insert_requested-Chained :
      (r : TicketRow) → Keeps (Chained P) (statement P (λ _ d. insert_unless_requested r d))
  unfolding insert_unless_requested
  insert_requested-Chained r = untouched P _ (λ t d a d' h. ground arith)

  insert_row-Chained : (r : TicketRow) → Keeps (Chained P) (statement P (λ _ d. insert_row r d))
  unfolding insert_row
  insert_row-Chained r = untouched P _ (λ t d a d' h. ground arith)

  next_ticket_number-Chained : (a b : String) → Keeps (Chained P) (next_ticket_number P a b)
  unfolding next_ticket_number take_number maybe
  next_ticket_number-Chained a b = untouched P _ (λ t d x d' h. ground arith)

  create_new-Chained : (i : CreateTicketInput) → Keeps (Chained P) (create_new P i)
  unfolding create_new insert_outbox_event lookup_service_code
  create_new-Chained i =
      search
        (keeps_rules, insert_requested-Chained, next_ticket_number-Chained, insert_event-Chained P)
        depth 16

  pub create_body-Chained : (i : CreateTicketInput) → Keeps (Chained P) (create_body P i)
  unfolding create_body find_ticket_by_request_id
  create_body-Chained i = search (keeps_rules, create_new-Chained) depth 12

  check_in_new-Chained : (a b c d : String) → Keeps (Chained P) (check_in_new P a b c d)
  unfolding check_in_new insert_outbox_event lookup_service_code
  check_in_new-Chained a b c d =
      search
        (
          keeps_rules,
          Keeps-exec P,
          insert_row-Chained,
          next_ticket_number-Chained,
          insert_event-Chained P,
        )
        depth 20

  pub check_in_body-Chained : (a b c d : String) → Keeps (Chained P) (check_in_body P a b c d)
  unfolding check_in_body find_ticket_by_request_id
  check_in_body-Chained a b c d = search (keeps_rules, check_in_new-Chained) depth 12

  explain-Chained :
      {A : Type 0} (i : TicketActionInput) (b : Bool) → Keeps (Chained P) (explain P {A = A} i b)
  unfolding explain load_ticket_state
  explain-Chained i b = search keeps_rules depth 12

  update_one-Chained :
      (p : TicketRow → Bool) (f : TicketRow → TicketRow)
      → Keeps (Chained P) (statement P (λ _ d. update_one p f d))
  update_one-Chained p f = Keeps-write P _ _ (λ d h. h)

  transfer_one-Chained :
      (i : TicketActionInput) → Keeps (Chained P) (statement P (λ _ d. transfer_one i d))
  transfer_one-Chained i = Keeps-write P _ _ (λ d h. h)

  pub change_first-Chained :
      (c : StatusChange) (i : TicketActionInput) → Keeps (Chained P) (change_first P c i)
  unfolding change_first insert_outbox_event_generic
  change_first-Chained c i =
      search
        (
          keeps_rules,
          update_one-Chained,
          explain-Chained,
          insert_event-Chained P,
          insert_action_request-Chained P,
        )
        depth 12

  pub emit_first-Chained :
      (a : String) (s : Status) (e : String) (i : TicketActionInput)
      → Keeps (Chained P) (emit_first P a s e i)
  unfolding emit_first insert_outbox_event_generic get_ticket_by_id
  emit_first-Chained a s e i =
      search (keeps_rules, insert_event-Chained P, insert_action_request-Chained P) depth 12

  pub no_show_first-Chained :
      (b : Bool) (i : TicketActionInput) → Keeps (Chained P) (no_show_first P b i)
  unfolding no_show_first insert_outbox_event_no_show
  no_show_first-Chained b i =
      search
        (
          keeps_rules,
          update_one-Chained,
          explain-Chained,
          insert_event-Chained P,
          insert_action_request-Chained P,
        )
        depth 12

  pub transfer_first-Chained : (i : TicketActionInput) → Keeps (Chained P) (transfer_first P i)
  unfolding transfer_first insert_outbox_event_transfer ensure_target_service_exists
  transfer_first-Chained i =
      search
        (keeps_rules, transfer_one-Chained, insert_event-Chained P, insert_action_request-Chained P)
        depth 12
