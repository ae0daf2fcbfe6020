-- ===== src/Queue/Actions.antt =====
-- services/queue-service/internal/store/postgres/store.go: the operations on one ticket.
use qms.Base.{
  ℕ, String, Bool, true, false, not, ◌&&◌, ◌||◌, Option, none, some, ◌=?◌, if◌then◌else◌, maybe,
  find, update,
}
use qms.Queue.Models.{
  Status, waiting, called, serving, no_show, status_eq, status_text, Ticket, no_ticket_value,
  TicketActionInput, or_now, text_or_empty, invalid_state, ticket_not_found, counter_mismatch,
}
use qms.Queue.Transitions.{valid_transition}
use qms.Queue.Db.{Db, TicketRow}
use qms.Queue.Tx.{
  Platform, State, Tx, Answer, answered, refused, Done, not_begun, pure, raise, leave, ◌>>=◌, ◌>>◌,
  or_raise, statement, now, transact,
}
use qms.Queue.Tx
use qms.Queue.Rows.{
  scan_called, scan_full, is_ticket, ensure_target_service_exists, load_ticket_state,
  get_ticket_by_id,
}
use qms.Queue.Events.{
  insert_outbox_event_generic, insert_outbox_event_transfer, insert_outbox_event_no_show,
}
use qms.Queue.Requests.{insert_action_request, unless_repeated}

abbrev pub map_row : {A : Type 0} → (TicketRow → A) → Option TicketRow → Option A
map_row f none = none
map_row f (some r) = some (f r)

-- `UPDATE tickets SET … WHERE … RETURNING`, for a condition that one row meets at most.
abbrev pub update_one :
    {B : Type 0}
    → (TicketRow → Bool)
    → (TicketRow → TicketRow)
    → Db B
    → Option (Option TicketRow × Db B)
update_one p f d = some (map_row f (find p d.tickets), record d { tickets = update p f d.tickets })

-- The column that an operation stamps.
pub data TimestampColumn : Type 0 where
  served_at_column completed_at_column no_column : TimestampColumn

abbrev pub stamp : TimestampColumn → ℕ → TicketRow → TicketRow
stamp served_at_column t r = record r { served_at = some t }
stamp completed_at_column t r = record r { completed_at = some t }
stamp no_column t r = r

abbrev pub set_status : Status → TicketRow → TicketRow
set_status s r = record r { status = s }

-- `counter_id = $n`, which NULL does not meet.
abbrev pub at_counter : String → TicketRow → Bool
at_counter counter_id r = elim r.counter_id [ none ↦ false | some c ↦ c =? counter_id ]

-- What sets the operations of `updateTicketStatus` apart.
pub record StatusChange : Type 0 where
  pub action : String
  pub from_status : Status
  pub to_status : Status
  pub event_type : String
  pub column : TimestampColumn
  pub require_counter : Bool

abbrev pub changes : StatusChange → TicketActionInput → TicketRow → Bool
changes c i r =
    is_ticket i.ticket_id i.tenant_id i.branch_id r
    && (status_eq r.status c.from_status
        && (if c.require_counter then at_counter i.counter_id r else true))

abbrev pub return_row : TicketRow → TicketRow
return_row r = record r { status = waiting; counter_id = none; called_at = none; returned = true }

abbrev pub no_show_row : Bool → TicketRow → TicketRow
no_show_row return_to_queue r = if return_to_queue then return_row r else set_status no_show r

abbrev pub is_called_ticket : TicketActionInput → TicketRow → Bool
is_called_ticket i r = is_ticket i.ticket_id i.tenant_id i.branch_id r && status_eq r.status called

abbrev pub is_transferable : TicketActionInput → TicketRow → Bool
is_transferable i r =
    is_ticket i.ticket_id i.tenant_id i.branch_id r
    && (status_eq r.status waiting || (status_eq r.status called || status_eq r.status serving))

abbrev pub transfer_row : TicketActionInput → TicketRow → TicketRow
transfer_row i r = record r { status = waiting; service_id = i.service_id; counter_id = none }

-- The statement of `TransferTicket`: the updated row and the service that it came from.
abbrev pub transfer_one :
    {B : Type 0} → TicketActionInput → Db B → Option (Option (TicketRow × String) × Db B)
transfer_one i d = some (
  map_row (λ r. (transfer_row i r, r.service_id)) (find (is_transferable i) d.tickets),
  record d { tickets = update (is_transferable i) (transfer_row i) d.tickets },
)

module _ {B : Type 0} (P : Platform B) where
  -- Why an UPDATE met no row. The errors are returned while `err` holds `pgx.ErrNoRows`.
  unfoldable pub explain : {A : Type 0} → TicketActionInput → Bool → Tx B A
  explain i require_counter = do
    state ← load_ticket_state P i.ticket_id i.tenant_id i.branch_id
    maybe state (raise ticket_not_found) λ found.
        let counter : String = found.1 in
        if require_counter && (not (counter =? "") && not (counter =? i.counter_id))
        then raise counter_mismatch
        else raise invalid_state

  unfoldable pub change_first : StatusChange → TicketActionInput → Tx B (Answer (Ticket × Bool))
  change_first c i = do
    time ← now P
    row ← statement P λ _ d.
        update_one (changes c i)
          (λ r. set_status c.to_status (stamp c.column (or_now i.occurred_at time) r)) d
    maybe row (explain i c.require_counter) λ r. do
      let t : Ticket = scan_full r
      let ticket : Ticket = record t { request_id = i.request_id }
      insert_action_request P c.action i.request_id i.tenant_id i.branch_id i.service_id
          i.counter_id ticket.ticket_id
      insert_outbox_event_generic P i.tenant_id c.event_type ticket
      pure (answered (ticket, true))

  unfoldable pub change_body : StatusChange → TicketActionInput → Tx B (Answer (Ticket × Bool))
  change_body c i = unless_repeated P c.action i.request_id invalid_state (change_first c i)

  -- Without a transaction.
  abbrev refuse : State B → Done B (Ticket × Bool)
  refuse s = Tx.done (refused invalid_state) not_begun s.db s.tick

  unfoldable pub update_ticket_status :
      StatusChange → TicketActionInput → State B → Done B (Ticket × Bool)
  unfolding change_body change_first explain
  update_ticket_status c i s =
      if valid_transition c.action (status_text c.from_status)
      then transact P (change_body c i) s
      else refuse s

  unfoldable pub emit_first :
      String → Status → String → TicketActionInput → Tx B (Answer (Ticket × Bool))
  emit_first action required event_type i = do
    t ← get_ticket_by_id P i.ticket_id i.tenant_id i.branch_id
    if t.status =? status_text required
        then (do
          let ticket : Ticket = record t { request_id = i.request_id }
          insert_action_request P action i.request_id i.tenant_id i.branch_id i.service_id
              i.counter_id ticket.ticket_id
          insert_outbox_event_generic P i.tenant_id event_type ticket
          pure (answered (ticket, true)))
        else leave invalid_state

  unfoldable pub emit_body :
      String → Status → String → TicketActionInput → Tx B (Answer (Ticket × Bool))
  emit_body action required event_type i =
      unless_repeated P action i.request_id invalid_state (emit_first action required event_type i)

  unfoldable pub emit_ticket_event :
      String → Status → String → TicketActionInput → State B → Done B (Ticket × Bool)
  unfolding emit_body emit_first
  emit_ticket_event action required event_type i s =
      if valid_transition action (status_text required)
      then transact P (emit_body action required event_type i) s
      else refuse s

  unfoldable pub no_show_first : Bool → TicketActionInput → Tx B (Answer (Ticket × Bool))
  no_show_first return_to_queue i = do
    row ← statement P λ _ d. update_one (is_called_ticket i) (no_show_row return_to_queue) d
    maybe row (explain i false) λ r. do
      let t : Ticket = scan_called r
      let ticket : Ticket = record t { request_id = i.request_id }
      insert_action_request P "no_show" i.request_id i.tenant_id i.branch_id i.service_id
          i.counter_id ticket.ticket_id
      insert_outbox_event_no_show P i.tenant_id ticket return_to_queue
      pure (answered (ticket, true))

  unfoldable pub no_show_body : Bool → TicketActionInput → Tx B (Answer (Ticket × Bool))
  no_show_body return_to_queue i =
      unless_repeated P "no_show" i.request_id invalid_state (no_show_first return_to_queue i)

  unfoldable pub apply_no_show : TicketActionInput → Bool → State B → Done B (Ticket × Bool)
  unfolding no_show_body no_show_first explain
  apply_no_show i return_to_queue = transact P (no_show_body return_to_queue i)

  unfoldable pub transfer_first : TicketActionInput → Tx B (Answer (Ticket × Bool))
  transfer_first i = do
    ensure_target_service_exists P i
    row ← statement P (λ _ d. transfer_one i d)
    moved ← or_raise row invalid_state
    let r : TicketRow = moved.0
    let ticket : Ticket = record no_ticket_value {
      ticket_id = r.ticket_id;
      ticket_number = r.ticket_number;
      status = status_text r.status;
      created_at = r.created_at;
      area_id = text_or_empty r.area_id;
      request_id = i.request_id;
      tenant_id = i.tenant_id;
      branch_id = i.branch_id;
      service_id = i.service_id;
    }
    insert_action_request P "transfer" i.request_id i.tenant_id i.branch_id i.service_id
        i.counter_id ticket.ticket_id
    insert_outbox_event_transfer P i.tenant_id ticket moved.1 i.service_id i.reason
    pure (answered (ticket, true))

  unfoldable pub transfer_body : TicketActionInput → Tx B (Answer (Ticket × Bool))
  transfer_body i = unless_repeated P "transfer" i.request_id invalid_state (transfer_first i)

  unfoldable pub transfer_ticket : TicketActionInput → State B → Done B (Ticket × Bool)
  unfolding transfer_body transfer_first
  transfer_ticket i = transact P (transfer_body i)
