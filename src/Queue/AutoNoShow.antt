-- ===== src/Queue/AutoNoShow.antt =====
-- services/queue-service/internal/store/postgres/store.go: `AutoNoShow`. Durations are signed
-- numbers of nanoseconds.
use qms.Base.{
  ℕ, suc, ◌+◌, ◌-◌, ◌*◌, String, Bool, true, false, not, ◌&&◌, none, some, List, [], ◌∷◌, ◌=?◌,
  if◌then◌else◌, maybe, ltb, leb, select, sort_by, update, take,
}
use qms.Base.Int.{ℤ, pos, negsuc, is_positive, pos_part}
use qms.Queue.Models.{called, no_show, waiting, status_eq, status_text, Ticket}
use qms.Queue.Db.{TicketRow}
use qms.Queue.Tx
use qms.Queue.Tx.{
  Platform, State, Tx, Answer, answered, Done, not_begun, pure, shadowed, ◌>>=◌, ◌>>◌, exec,
  statement, now, transact,
}
use qms.Queue.Rows.{ServicePolicy, scan_called, get_service_policy}
use qms.Queue.Events.{insert_outbox_event_no_show}
use qms.Queue.Actions.{no_show_row}
use qms.Queue.Operations.{Config}

abbrev pub nanos_per_second : ℕ
nanos_per_second = 1_000_000_000

-- `time.Duration(z) * time.Second`
abbrev pub seconds : ℤ → ℤ
seconds (pos n) = pos (n * nanos_per_second)
seconds (negsuc n) = negsuc (suc n * nanos_per_second - 1)

-- `now.Sub(t) < d`
unfoldable pub elapsed_below : ℕ → ℕ → ℤ → Bool
elapsed_below now t (pos n) = ltb now (t + n)
elapsed_below now t (negsuc n) = ltb (now + suc n) t

-- `called_at <= $1`, where `$1` is `grace` before `now`; NULL does not meet it.
abbrev pub called_before : ℕ → ℕ → TicketRow → Bool
called_before now grace r = elim r.called_at [ none ↦ false | some t ↦ leb (t + grace) now ]

abbrev pub called_order : TicketRow → TicketRow → Bool
called_order a b = elim a.called_at [
  | none ↦ false
  | some s ↦ elim b.called_at [ none ↦ true | some t ↦ leb s t ]
]

-- The rows of the first query.
unfoldable pub overdue : (String → Bool) → ℕ → ℕ → ℕ → List TicketRow → List TicketRow
overdue locked now grace batch tickets = take batch (
    sort_by called_order (
      select
        (λ (r : TicketRow).
          status_eq r.status called && (called_before now grace r && not (locked r.ticket_id)))
        tickets))

module _ {B : Type 0} (P : Platform B) (c : Config) where
  -- The two UPDATEs name the row by its key alone.
  unfoldable pub mark : Bool → String → Tx B (Unit {0})
  mark return_to_queue ticket_id = exec P λ d. record d {
    tickets =
        update (λ (t : TicketRow). t.ticket_id =? ticket_id) (no_show_row return_to_queue)
          d.tickets;
  }

  -- The rest of a round, from the test of the item's own grace on.
  unfoldable pub process_item : Bool → TicketRow → Tx B (Unit {0})
  process_item return_to_queue r = do
    mark return_to_queue r.ticket_id
    let t : Ticket = scan_called r
    let ticket : Ticket = record t {
      status = if return_to_queue then status_text waiting else status_text no_show;
    }
    insert_outbox_event_no_show P r.tenant_id ticket return_to_queue

  -- One round of the loop, with whether the item was processed.
  unfoldable pub item_round : ℤ → TicketRow → Tx B Bool
  item_round grace r = do
    found_policy ← get_service_policy P r.tenant_id r.branch_id r.service_id
    let policy : ServicePolicy = found_policy.0
    let effective_grace : ℤ = if found_policy.1 then seconds policy.no_show_grace_seconds else grace
    let return_to_queue : Bool =
        if found_policy.1 then policy.return_to_queue else c.no_show_return_to_queue
    maybe r.called_at (pure false) λ called_at. do
      time ← now P
      if elapsed_below time called_at effective_grace
          then pure false
          else (process_item return_to_queue r >>= λ _. pure true)

  -- The loop. Its `err` is a second variable.
  unfoldable pub each_item : ℤ → List TicketRow → ℕ → Tx B ℕ
  each_item grace [] processed = pure processed
  each_item grace (r ∷ rs) processed = shadowed (item_round grace r) >>= λ counted.
      each_item grace rs (if counted then processed + 1 else processed)

  unfoldable pub auto_body : ℤ → ℕ → Tx B (Answer ℕ)
  auto_body grace batch = do
    time ← now P
    items ← statement P λ t d. some (overdue (P.locked t) time (pos_part grace) batch d.tickets, d)
    processed ← each_item grace items 0
    pure (answered processed)

  unfoldable pub auto_no_show : ℤ → ℤ → State B → Done B ℕ
  unfolding auto_body each_item item_round process_item mark
  auto_no_show grace batch_size s =
      if is_positive grace
      then transact P
          (auto_body grace (if is_positive batch_size then pos_part batch_size else 100)) s
      else Tx.done (answered 0) not_begun s.db s.tick
