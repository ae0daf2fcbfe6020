-- ===== src/Queue/Lifecycle/CallNext.antt =====
-- store/postgres/store.go: `CallNext` and the transition table.
use qms.Base.{ℕ, List}
use qms.Queue.Models.{CallNextInput, no_ticket}
use qms.Queue.Db.{TicketRow}
use qms.Queue.Tx.{Platform}
use qms.Queue.Tx.Keeps.{Keeps, keeps_rules}
use qms.Queue.Events.{insert_outbox_event_called}
use qms.Queue.CallNext.{call_with_counter, call_first, call_body}
use qms.Queue.Lifecycle.Frame.{
  ensure_service_exists-Keeps, counter_allows_service-Keeps, get_counter_status-Keeps,
  get_service_policy-Keeps, lock_routing_state-Keeps, update_routing_state-Keeps,
  insert_event-Keeps, insert_action_request-Keeps, unless_repeated-Keeps,
}
use qms.Queue.Lifecycle.Evolves.{Unique, Evolves}
use qms.Queue.Lifecycle.Steps.{Follows}
use qms.Queue.Lifecycle.Selection.{update_next_ticket-Follows}

module _ {B : Type 0} (P : Platform B) (limit : ℕ) (before : List TicketRow)
    (unique : Unique before) where
  call_with_counter-Follows :
      (i : CallNextInput) → Keeps (Follows P "call_next" before) (call_with_counter P limit i)
  unfolding call_with_counter insert_outbox_event_called
  call_with_counter-Follows i =
      search
        (
          keeps_rules,
          lock_routing_state-Keeps P (Evolves "call_next" before),
          get_service_policy-Keeps P (Evolves "call_next" before),
          update_next_ticket-Follows P before unique,
          update_routing_state-Keeps P (Evolves "call_next" before),
          insert_event-Keeps P (Evolves "call_next" before),
          insert_action_request-Keeps P (Evolves "call_next" before),
        )
        depth 16

  call_first-Follows :
      (i : CallNextInput) → Keeps (Follows P "call_next" before) (call_first P limit i)
  unfolding call_first
  call_first-Follows i =
      search
        (
          keeps_rules,
          call_with_counter-Follows,
          ensure_service_exists-Keeps P (Evolves "call_next" before),
          counter_allows_service-Keeps P (Evolves "call_next" before),
          get_counter_status-Keeps P (Evolves "call_next" before),
        )
        depth 12

  pub call_body-Follows :
      (i : CallNextInput) → Keeps (Follows P "call_next" before) (call_body P limit i)
  unfolding call_body
  call_body-Follows i =
      unless_repeated-Keeps P (Evolves "call_next" before) "call_next" i.request_id no_ticket _
        (call_first-Follows i)
