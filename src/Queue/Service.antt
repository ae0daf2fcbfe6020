-- ===== src/Queue/Service.antt =====
-- services/queue-service/internal/store/store.go: the writing methods of `TicketStore` as one type
-- of requests, with the rounds of the no-show job, and the runs of the service.
use qms.Base.{String, Bool, List, [], ◌∷◌}
use qms.Base.Int.{ℤ}
use qms.Queue.Models.{Ticket, CreateTicketInput, CallNextInput, TicketActionInput}
use qms.Queue.Tx.{Platform, State, Done}
use qms.Queue.Create.{create_ticket, check_in_appointment}
use qms.Queue.CallNext.{call_next}
use qms.Queue.Actions.{transfer_ticket}
use qms.Queue.Operations.{
  Config, start_serving, complete_ticket, cancel_ticket, hold_ticket, unhold_ticket, no_show_ticket,
  recall_ticket,
}
use qms.Queue.AutoNoShow.{auto_no_show}

-- The operations on a ticket, which record the request that they answer.
pub data TicketRequest : Type 0 where
  call : CallNextInput → TicketRequest
  start complete cancel hold unhold recall transfer no_show : TicketActionInput → TicketRequest

pub data Request : Type 0 where
  create : CreateTicketInput → Request
  check_in : String → String → String → String → Request
  act : TicketRequest → Request
  sweep : ℤ → ℤ → Request

module _ {B : Type 0} (P : Platform B) (c : Config) where
  unfoldable pub perform : TicketRequest → State B → Done B (Ticket × Bool)
  perform (call i) s = call_next P c.priority_streak_limit i s
  perform (start i) s = start_serving P i s
  perform (complete i) s = complete_ticket P i s
  perform (cancel i) s = cancel_ticket P i s
  perform (hold i) s = hold_ticket P i s
  perform (unhold i) s = unhold_ticket P i s
  perform (recall i) s = recall_ticket P i s
  perform (transfer i) s = transfer_ticket P i s
  perform (no_show i) s = no_show_ticket P i s

  -- The state after a request, whatever its answer.
  unfoldable pub serve : Request → State B → State B
  unfolding perform
  serve (create i) s = (create_ticket P i s).after
  serve (check_in request tenant branch appointment) s =
      (check_in_appointment P request tenant branch appointment s).after
  serve (act r) s = (perform r s).after
  serve (sweep grace batch) s = (auto_no_show P c grace batch s).after

  -- The requests of a run, one after another.
  unfoldable pub run : List Request → State B → State B
  unfolding serve
  run [] s = s
  run (r ∷ rs) s = run rs (serve r s)
