-- ===== src/Queue/Operations.antt =====
-- services/queue-service/internal/store/postgres/store.go: `NewStore` and the methods that are one
-- call of a function with their own parameters.
use qms.Base.{ℕ, Bool, true, false, if◌then◌else◌}
use qms.Base.Int.{ℤ, is_positive, pos_part}
use qms.Queue.Models.{waiting, called, serving, done, cancelled, held, Ticket, TicketActionInput}
use qms.Queue.Tx.{Platform, State, Done}
use qms.Queue.Actions.{
  StatusChange, served_at_column, completed_at_column, no_column, update_ticket_status,
  emit_ticket_event, apply_no_show,
}

pub record Options : Type 0 where
  pub no_show_return_to_queue : Bool
  pub priority_streak_limit : ℤ

-- `Store`, less its connection pool.
pub record Config : Type 0 where
  pub no_show_return_to_queue : Bool
  pub priority_streak_limit : ℕ

unfoldable pub new_store : Options → Config
new_store o = record {
  no_show_return_to_queue = o.no_show_return_to_queue;
  priority_streak_limit =
      if is_positive o.priority_streak_limit then pos_part o.priority_streak_limit else 3;
}

abbrev pub start_serving_change : StatusChange
start_serving_change = record {
  action = "start_serving";
  from_status = called;
  to_status = serving;
  event_type = "ticket.serving";
  column = served_at_column;
  require_counter = true;
}

abbrev pub complete_change : StatusChange
complete_change = record {
  action = "complete";
  from_status = serving;
  to_status = done;
  event_type = "ticket.done";
  column = completed_at_column;
  require_counter = false;
}

abbrev pub cancel_change : StatusChange
cancel_change = record {
  action = "cancel";
  from_status = waiting;
  to_status = cancelled;
  event_type = "ticket.cancelled";
  column = no_column;
  require_counter = false;
}

abbrev pub hold_change : StatusChange
hold_change = record {
  action = "hold";
  from_status = waiting;
  to_status = held;
  event_type = "ticket.held";
  column = no_column;
  require_counter = false;
}

abbrev pub unhold_change : StatusChange
unhold_change = record {
  action = "unhold";
  from_status = held;
  to_status = waiting;
  event_type = "ticket.unheld";
  column = no_column;
  require_counter = false;
}

module _ {B : Type 0} (P : Platform B) where
  unfoldable pub start_serving : TicketActionInput → State B → Done B (Ticket × Bool)
  start_serving = update_ticket_status P start_serving_change

  unfoldable pub complete_ticket : TicketActionInput → State B → Done B (Ticket × Bool)
  complete_ticket = update_ticket_status P complete_change

  unfoldable pub cancel_ticket : TicketActionInput → State B → Done B (Ticket × Bool)
  cancel_ticket = update_ticket_status P cancel_change

  unfoldable pub hold_ticket : TicketActionInput → State B → Done B (Ticket × Bool)
  hold_ticket = update_ticket_status P hold_change

  unfoldable pub unhold_ticket : TicketActionInput → State B → Done B (Ticket × Bool)
  unhold_ticket = update_ticket_status P unhold_change

  unfoldable pub no_show_ticket : TicketActionInput → State B → Done B (Ticket × Bool)
  no_show_ticket i = apply_no_show P i i.return_to_queue

  unfoldable pub recall_ticket : TicketActionInput → State B → Done B (Ticket × Bool)
  recall_ticket = emit_ticket_event P "recall" called "ticket.recalled"
