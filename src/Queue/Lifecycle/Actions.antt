-- ===== src/Queue/Lifecycle/Actions.antt =====
-- store/postgres/store.go: the operations on one ticket and the transition table.
use qms.Base.{ℕ, String, Bool, List, refl}
use qms.Queue.Models.{Status, TicketActionInput, or_now, invalid_state}
use qms.Queue.Transitions.{valid_transition}
use qms.Queue.Models.{status_text}
use qms.Queue.Db.{TicketRow}
use qms.Queue.Tx.{Platform, statement}
use qms.Queue.Tx.Keeps.{Keeps, keeps_rules}
use qms.Queue.Events.{
  insert_outbox_event_generic, insert_outbox_event_no_show, insert_outbox_event_transfer,
}
use qms.Queue.Actions.{
  update_one, StatusChange, changes, set_status, stamp, no_show_row, is_called_ticket, transfer_one,
  explain, change_first, change_body, emit_first, emit_body, no_show_first, no_show_body,
  transfer_first, transfer_body,
}
use qms.Queue.Operations.{
  start_serving_change, complete_change, cancel_change, hold_change, unhold_change,
}
use qms.Queue.Lifecycle.Frame.{
  load_ticket_state-Keeps, get_ticket_by_id-Keeps, ensure_target_service_exists-Keeps,
  insert_event-Keeps, insert_action_request-Keeps, unless_repeated-Keeps,
}
use qms.Queue.Lifecycle.Evolves.{Evolves, to_serving, to_done, to_cancelled, to_held, to_waiting}
use qms.Queue.Lifecycle.Steps.{
  Follows, update_one-Keeps, transfer_one-Keeps, IsDeclared, changes-Allowed, change_Moves,
  no_show_Moves, no_show-Allowed, transfer_Moves, transfer-Allowed,
}

-- The five status changes of the store agree with the transition table.
pub start_serving_IsDeclared : IsDeclared start_serving_change
unfolding valid_transition status_text
start_serving_IsDeclared = record { allowed = refl; target = to_serving }

pub complete_IsDeclared : IsDeclared complete_change
unfolding valid_transition status_text
complete_IsDeclared = record { allowed = refl; target = to_done }

pub cancel_IsDeclared : IsDeclared cancel_change
unfolding valid_transition status_text
cancel_IsDeclared = record { allowed = refl; target = to_cancelled }

pub hold_IsDeclared : IsDeclared hold_change
unfolding valid_transition status_text
hold_IsDeclared = record { allowed = refl; target = to_held }

pub unhold_IsDeclared : IsDeclared unhold_change
unfolding valid_transition status_text
unhold_IsDeclared = record { allowed = refl; target = to_waiting }

module _ {B : Type 0} (P : Platform B) (before : List TicketRow) where
  explain-Keeps :
      (a : String) {A : Type 0} (i : TicketActionInput) (b : Bool)
      → Keeps (Follows P a before) (explain P {A = A} i b)
  unfolding explain
  explain-Keeps a i b = search (keeps_rules, load_ticket_state-Keeps P (Evolves a before)) depth 12

  change_statement :
      (c : StatusChange) (i : TicketActionInput) (time : ℕ)
      → IsDeclared c
      → Keeps (Follows P c.action before) (
          statement P λ _ d.
            update_one
              (changes c i)
              (λ r. set_status c.to_status (stamp c.column (or_now i.occurred_at time) r))
              d)
  change_statement c i time h =
      update_one-Keeps P c.action before _ _ (change_Moves c i _ h) (λ r. changes-Allowed c i r h)

  change_first-Follows :
      (c : StatusChange) (i : TicketActionInput)
      → IsDeclared c
      → Keeps (Follows P c.action before) (change_first P c i)
  unfolding change_first insert_outbox_event_generic
  change_first-Follows c i h =
      search
        (
          keeps_rules,
          change_statement,
          explain-Keeps,
          insert_event-Keeps P (Evolves c.action before),
          insert_action_request-Keeps P (Evolves c.action before),
        )
        depth 12

  pub change_body-Follows :
      (c : StatusChange) (i : TicketActionInput)
      → IsDeclared c
      → Keeps (Follows P c.action before) (change_body P c i)
  unfolding change_body
  change_body-Follows c i h =
      unless_repeated-Keeps P (Evolves c.action before) c.action i.request_id invalid_state _
        (change_first-Follows c i h)

  emit_first-Follows :
      (a : String) (s : Status) (e : String) (i : TicketActionInput)
      → Keeps (Follows P a before) (emit_first P a s e i)
  unfolding emit_first insert_outbox_event_generic
  emit_first-Follows a s e i =
      search
        (
          keeps_rules,
          get_ticket_by_id-Keeps P (Evolves a before),
          insert_event-Keeps P (Evolves a before),
          insert_action_request-Keeps P (Evolves a before),
        )
        depth 12

  pub emit_body-Follows :
      (a : String) (s : Status) (e : String) (i : TicketActionInput)
      → Keeps (Follows P a before) (emit_body P a s e i)
  unfolding emit_body
  emit_body-Follows a s e i =
      unless_repeated-Keeps P (Evolves a before) a i.request_id invalid_state _
        (emit_first-Follows a s e i)

  no_show_statement :
      (b : Bool) (i : TicketActionInput)
      → Keeps
          (Follows P "no_show" before)
          (statement P λ _ d. update_one (is_called_ticket i) (no_show_row b) d)
  no_show_statement b i =
      update_one-Keeps P "no_show" before _ _ (no_show_Moves b i) (no_show-Allowed i)

  no_show_first-Follows :
      (b : Bool) (i : TicketActionInput) → Keeps (Follows P "no_show" before) (no_show_first P b i)
  unfolding no_show_first insert_outbox_event_no_show
  no_show_first-Follows b i =
      search
        (
          keeps_rules,
          no_show_statement,
          explain-Keeps,
          insert_event-Keeps P (Evolves "no_show" before),
          insert_action_request-Keeps P (Evolves "no_show" before),
        )
        depth 12

  pub no_show_body-Follows :
      (b : Bool) (i : TicketActionInput) → Keeps (Follows P "no_show" before) (no_show_body P b i)
  unfolding no_show_body
  no_show_body-Follows b i =
      unless_repeated-Keeps P (Evolves "no_show" before) "no_show" i.request_id invalid_state _
        (no_show_first-Follows b i)

  transfer_statement :
      (i : TicketActionInput)
      → Keeps (Follows P "transfer" before) (statement P λ _ d. transfer_one i d)
  transfer_statement i =
      transfer_one-Keeps P "transfer" before i (transfer_Moves i) (transfer-Allowed i)

  transfer_first-Follows :
      (i : TicketActionInput) → Keeps (Follows P "transfer" before) (transfer_first P i)
  unfolding transfer_first insert_outbox_event_transfer
  transfer_first-Follows i =
      search
        (
          keeps_rules,
          transfer_statement,
          ensure_target_service_exists-Keeps P (Evolves "transfer" before),
          insert_event-Keeps P (Evolves "transfer" before),
          insert_action_request-Keeps P (Evolves "transfer" before),
        )
        depth 12

  pub transfer_body-Follows :
      (i : TicketActionInput) → Keeps (Follows P "transfer" before) (transfer_body P i)
  unfolding transfer_body
  transfer_body-Follows i =
      unless_repeated-Keeps P (Evolves "transfer" before) "transfer" i.request_id invalid_state _
        (transfer_first-Follows i)
