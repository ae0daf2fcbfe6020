-- ===== src/Queue/Reads.antt =====
-- services/queue-service/internal/store/postgres/store.go: the methods that only read, and
-- `UpdateCounterStatus`. Each is one statement outside a transaction.
use qms.Base.{
  ℕ, String, Bool, true, false, ◌&&◌, ◌||◌, Option, none, some, List, [], ◌∷◌, map, ◌=?◌, ◌==◌,
  if◌then◌else◌, maybe, ltb, leb, find, select, any, update, sort_by, best, take,
}
use qms.Base.Int.{ℤ, is_positive, pos_part}
use qms.Queue.Models.{
  waiting, called, serving, held, status_eq, Ticket, ticket_not_found, counter_not_found, failure,
}
use qms.Queue.Db.{Db, TicketRow, CounterRow, ServiceRow, BranchRow, OutboxEvent, EventRow}
use qms.Queue.Tx.{Platform, Tx, pure, raise, ◌>>=◌, or_raise, query, statement}
use qms.Queue.Rows.{scan_full, is_ticket}
use qms.Queue.Rehydrate.{TicketEvent}

abbrev pub in_branch : String → String → TicketRow → Bool
in_branch tenant_id branch_id r = r.tenant_id =? tenant_id && r.branch_id =? branch_id

-- `ORDER BY created_at ASC`
abbrev pub by_created_at : TicketRow → TicketRow → Bool
by_created_at a b = leb a.created_at b.created_at

-- `ORDER BY called_at DESC LIMIT 1`, in which PostgreSQL puts NULL first.
abbrev pub called_later : TicketRow → TicketRow → Bool
called_later a b = elim b.called_at [
  | none ↦ false
  | some t ↦ elim a.called_at [ none ↦ true | some s ↦ ltb t s ]
]

unfoldable pub queue_rows : String → String → String → List TicketRow → List TicketRow
queue_rows tenant_id branch_id service_id tickets = sort_by by_created_at (
    select
      (λ (r : TicketRow).
        in_branch tenant_id branch_id r
        && ((status_eq r.status waiting || status_eq r.status held)
            && (if service_id =? "" then true else r.service_id =? service_id)))
      tickets)

unfoldable pub snapshot_rows : String → String → String → List TicketRow → List TicketRow
snapshot_rows tenant_id branch_id service_id tickets = sort_by by_created_at (
    select
      (λ (r : TicketRow).
        in_branch tenant_id branch_id r
        && (r.service_id =? service_id
            && (status_eq r.status waiting
                || (status_eq r.status called || status_eq r.status serving))))
      tickets)

unfoldable pub active_row : String → String → String → List TicketRow → Option TicketRow
active_row tenant_id branch_id counter_id tickets = best called_later (
    select
      (λ (r : TicketRow).
        in_branch tenant_id branch_id r
        && (elim r.counter_id [ none ↦ false | some c ↦ c =? counter_id ]
            && (status_eq r.status called || status_eq r.status serving)))
      tickets)

abbrev branch_of_tenant : {B : Type 0} → Db B → String → String → Bool
branch_of_tenant d tenant_id branch_id =
    any (λ (b : BranchRow). b.branch_id =? branch_id && b.tenant_id =? tenant_id) d.branches

-- A row of the log as the driver scans it: a NULL hash is an error.
abbrev pub scan_event : {B : Type 0} → EventRow B → Option (TicketEvent B)
scan_event e = elim e.prev_hash [
  | none ↦ none
  | some prev ↦ elim e.hash [
    | none ↦ none
    | some hash ↦ some (record {
      ticket_id = e.ticket_id;
      ticket_seq = e.ticket_seq;
      type = e.type;
      payload = e.payload;
      created_at = e.created_at;
      prev_hash = prev;
      hash = hash;
    })
  ]
]

unfoldable pub scan_events : {B : Type 0} → List (EventRow B) → Option (List (TicketEvent B))
scan_events [] = some []
scan_events (e ∷ es) = elim (scan_event e) [
  | none ↦ none
  | some x ↦ elim (scan_events es) [ none ↦ none | some xs ↦ some (x ∷ xs) ]
]

module _ {B : Type 0} (P : Platform B) where
  unfoldable pub get_ticket : String → String → String → Tx B Ticket
  get_ticket tenant_id branch_id ticket_id = do
    row ← query P (λ d. find (is_ticket ticket_id tenant_id branch_id) d.tickets)
    r ← or_raise row ticket_not_found
    pure (scan_full r)

  unfoldable pub list_queue : String → String → String → Tx B (List Ticket)
  list_queue tenant_id branch_id service_id =
      query P (λ d. map scan_full (queue_rows tenant_id branch_id service_id d.tickets))

  unfoldable pub snapshot_tickets : String → String → String → Tx B (List Ticket)
  snapshot_tickets tenant_id branch_id service_id =
      query P (λ d. map scan_full (snapshot_rows tenant_id branch_id service_id d.tickets))

  unfoldable pub get_active_ticket : String → String → String → Tx B (Option Ticket)
  get_active_ticket tenant_id branch_id counter_id = do
    row ← query P (λ d. active_row tenant_id branch_id counter_id d.tickets)
    maybe row (pure none) λ r. pure (some (scan_full r))

  -- With the zero time for `after`, from the oldest on.
  unfoldable pub list_outbox_events : String → ℕ → ℤ → Tx B (List (OutboxEvent B))
  list_outbox_events tenant_id after limit = query P λ d.
      take (if is_positive limit then pos_part limit else 100) (
        sort_by (λ (a b : OutboxEvent B). leb a.created_at b.created_at)
          (select
            (λ (e : OutboxEvent B).
              e.tenant_id =? tenant_id && (if after == 0 then true else ltb after e.created_at))
            d.outbox_events))

  unfoldable pub list_ticket_events : String → String → Tx B (List (TicketEvent B))
  list_ticket_events tenant_id ticket_id = do
    rows ← query P λ d.
        sort_by (λ (a b : EventRow B). leb a.ticket_seq b.ticket_seq)
          (select
            (λ (e : EventRow B).
              e.ticket_id =? ticket_id
              && any (λ (t : TicketRow). t.ticket_id =? e.ticket_id && t.tenant_id =? tenant_id)
                  d.tickets)
            d.ticket_events)
    or_raise (scan_events rows) failure

  -- `text_before` is the database's order of texts.
  unfoldable pub list_counters : (String → String → Bool) → String → String → Tx B (List CounterRow)
  list_counters text_before tenant_id branch_id = query P λ d.
      sort_by (λ (a b : CounterRow). text_before a.name b.name)
        (select
          (λ (c : CounterRow). c.branch_id =? branch_id && branch_of_tenant d tenant_id c.branch_id)
          d.counters)

  unfoldable pub list_services : (String → String → Bool) → String → String → Tx B (List ServiceRow)
  list_services text_before tenant_id branch_id = query P λ d.
      sort_by (λ (a b : ServiceRow). text_before a.name b.name)
        (select
          (λ (s : ServiceRow).
            s.branch_id =? branch_id && (branch_of_tenant d tenant_id s.branch_id && s.active))
          d.services)

  unfoldable pub update_counter_status : String → String → String → String → Tx B (Unit {0})
  update_counter_status tenant_id branch_id counter_id status = do
    affected ← statement P λ _ d.
        (let chosen : CounterRow → Bool = λ c.
            c.counter_id =? counter_id
            && (c.branch_id =? branch_id && branch_of_tenant d tenant_id c.branch_id) in
          some (
            any chosen d.counters,
            record d {
              counters =
                  update chosen (λ (c : CounterRow). record c { status = status }) d.counters;
            },
          ))
    if affected then pure tt else raise counter_not_found
