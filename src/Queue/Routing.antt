-- ===== src/Queue/Routing.antt =====
-- services/queue-service/internal/store/postgres/store.go: the routing state of a service, its
-- policy, and the selection of the next ticket. The counts are INTEGER columns that only these
-- functions write, from 0 upwards. Each selection is one statement, a CTE that takes the first row
-- that no other transaction has locked and the UPDATE of that row.
use qms.Base.{
  ℕ, ◌+◌, String, Bool, true, false, not, ◌&&◌, Option, none, some, List, [], ◌∷◌, ◌++◌, ◌=?◌, ◌==◌,
  if◌then◌else◌, ltb, leb, select, find, any, update, best,
}
use qms.Base.Int.{ℤ, is_positive, pos_part}
use qms.Queue.Models.{Ticket, CallNextInput, waiting, called, status_eq, no_rows}
use qms.Queue.Db.{Db, TicketRow, RoutingRow, AppointmentRow}
use qms.Queue.Tx.{Platform, Tx, pure, ◌>>=◌, ◌>>◌, or_raise, or_if_no_rows, query, exec, statement}
use qms.Queue.Rows.{scan_called}
use qms.Queue.Doubles.{double, times, divided_by, round}

pub record RoutingState : Type 0 where
  pub priority_streak : ℕ
  pub appointment_served : ℕ
  pub total_served : ℕ

abbrev pub is_route : String → String → String → RoutingRow → Bool
is_route tenant_id branch_id service_id r =
    r.tenant_id =? tenant_id && (r.branch_id =? branch_id && r.service_id =? service_id)

unfoldable pub normalize_appointment_window : ℤ → ℕ
normalize_appointment_window value = if is_positive value then pos_part value else 10

unfoldable pub appointment_target_count : ℤ → ℕ → ℕ
unfolding double times divided_by round
appointment_target_count ratio_percent window =
    if is_positive ratio_percent && ltb 0 window
    then round (divided_by (times (double (pos_part ratio_percent)) (double window)) 100)
    else 0

-- The computation of `updateRoutingState`, before its UPDATE.
unfoldable pub next_routing_state : RoutingState → String → Bool → ℕ → RoutingState
next_routing_state state priority_class is_appointment window =
    let new_streak : ℕ =
      if priority_class =? "regular"
      then 0
      else if priority_class =? ""
      then state.priority_streak
      else state.priority_streak + 1 in
    let total_served : ℕ = state.total_served + 1 in
    let appointment_served : ℕ =
      if is_appointment then state.appointment_served + 1 else state.appointment_served in
    if ltb 0 window && leb window total_served
    then record { priority_streak = new_streak; appointment_served = 0; total_served = 0 }
    else record {
      priority_streak = new_streak;
      appointment_served = appointment_served;
      total_served = total_served;
    }

-- The condition on `priority_class` that a query adds.
pub data ClassFilter : Type 0 where
  any_class only_regular not_regular : ClassFilter

abbrev pub passes : ClassFilter → TicketRow → Bool
passes any_class r = true
passes only_regular r = r.priority_class =? "regular"
passes not_regular r = not (r.priority_class =? "regular")

-- The waiting tickets of the input's queue.
abbrev pub is_queued : CallNextInput → TicketRow → Bool
is_queued i r =
    r.tenant_id =? i.tenant_id
    && (r.branch_id =? i.branch_id && (r.service_id =? i.service_id && status_eq r.status waiting))

abbrev pub no_appointment : TicketRow → Bool
no_appointment r = elim r.appointment_id [ none ↦ true | some a ↦ false ]

-- `scheduled_at` of the appointment that the join finds.
unfoldable pub scheduled_at : List AppointmentRow → TicketRow → Option ℕ
scheduled_at appointments r = elim r.appointment_id [
  | none ↦ none
  | some id ↦ elim (find (λ (a : AppointmentRow). a.appointment_id =? id) appointments) [
    | none ↦ none
    | some a ↦ some a.scheduled_at
  ]
]

abbrev pub within_cutoff : ℕ → Option ℕ → Bool
within_cutoff cutoff none = false
within_cutoff cutoff (some t) = if cutoff == 0 then true else leb t cutoff

abbrev pub older : TicketRow → TicketRow → Bool
older a b = ltb a.created_at b.created_at

abbrev earlier : Option ℕ → Option ℕ → TicketRow → TicketRow → Bool
earlier (some s) (some t) a b = if s == t then older a b else ltb s t
earlier _ _ a b = older a b

-- `a.scheduled_at ASC, t.created_at ASC`
abbrev pub scheduled_before : List AppointmentRow → TicketRow → TicketRow → Bool
scheduled_before appointments a b =
    earlier (scheduled_at appointments a) (scheduled_at appointments b) a b

-- The row after the UPDATE.
abbrev pub call_row : CallNextInput → ℕ → TicketRow → TicketRow
call_row i called_at r = record r {
  status = called;
  counter_id = some i.counter_id;
  called_at = some called_at;
}

abbrev pub call_row_of : {B : Type 0} → CallNextInput → ℕ → TicketRow → Db B → Db B
call_row_of i called_at r d = record d {
  tickets = update (λ (t : TicketRow). t.ticket_id =? r.ticket_id) (call_row i called_at) d.tickets;
}

-- The rows that the walk-in query chooses from, and its choice.
unfoldable pub walkin_candidates :
    (String → Bool) → CallNextInput → ClassFilter → List TicketRow → List TicketRow
walkin_candidates locked i filter tickets =
    select
      (λ (r : TicketRow).
        is_queued i r && (no_appointment r && (passes filter r && not (locked r.ticket_id))))
      tickets

-- The same of the appointment query.
unfoldable pub appointment_candidates :
    {B : Type 0} → (String → Bool) → CallNextInput → ClassFilter → ℕ → Db B → List TicketRow
appointment_candidates locked i filter cutoff d =
    select
      (λ (r : TicketRow).
        is_queued i r
        && (within_cutoff cutoff (scheduled_at d.appointments r)
            && (passes filter r && not (locked r.ticket_id))))
      d.tickets

-- The UPDATE of the chosen row, if there is one, with its RETURNING.
abbrev pub call_best :
    {B : Type 0} → CallNextInput → ℕ → Option TicketRow → Db B → Option (Option TicketRow × Db B)
call_best i called_at none d = some (none, d)
call_best i called_at (some r) d = some (some (call_row i called_at r), call_row_of i called_at r d)

-- The INSERT of `lockRoutingState`, with `ON CONFLICT … DO NOTHING`.
unfoldable pub ensure_route : {B : Type 0} → String → String → String → Db B → Db B
ensure_route tenant_id branch_id service_id d =
    if any (is_route tenant_id branch_id service_id) d.routing then d else record d {
      routing =
          d.routing
          ++ (record {
            tenant_id = tenant_id;
            branch_id = branch_id;
            service_id = service_id;
            priority_streak = 0;
            appointment_served = 0;
            total_served = 0;
          }
              ∷ []);
    }

module _ {B : Type 0} (P : Platform B) where
  unfoldable pub lock_routing_state : String → String → String → Tx B RoutingState
  lock_routing_state tenant_id branch_id service_id = do
    exec P (ensure_route tenant_id branch_id service_id)
    row ← query P (λ d. find (is_route tenant_id branch_id service_id) d.routing)
    r ← or_raise row no_rows
    pure (record {
      priority_streak = r.priority_streak;
      appointment_served = r.appointment_served;
      total_served = r.total_served;
    })

  unfoldable pub update_routing_state :
      String → String → String → RoutingState → String → Bool → ℕ → Tx B (Unit {0})
  update_routing_state tenant_id branch_id service_id state priority_class is_appointment window =
      let new : RoutingState = next_routing_state state priority_class is_appointment window in
      exec P λ d. record d {
        routing =
            update (is_route tenant_id branch_id service_id)
              (λ (r : RoutingRow). record r {
                priority_streak = new.priority_streak;
                appointment_served = new.appointment_served;
                total_served = new.total_served;
              })
              d.routing;
      }

  unfoldable pub update_next_walkin_ticket_with_filter :
      CallNextInput → ℕ → ClassFilter → Tx B (Ticket × String)
  update_next_walkin_ticket_with_filter i called_at filter = do
    row ← statement P λ t d.
        call_best i called_at (best older (walkin_candidates (P.locked t) i filter d.tickets)) d
    r ← or_raise row no_rows
    pure (scan_called r, r.priority_class)

  unfoldable pub update_next_appointment_ticket_with_filter :
      CallNextInput → ℕ → ClassFilter → ℕ → Tx B (Ticket × String)
  update_next_appointment_ticket_with_filter i called_at filter cutoff = do
    row ← statement P λ t d.
        call_best i called_at
          (best (scheduled_before d.appointments)
            (appointment_candidates (P.locked t) i filter cutoff d))
          d
    r ← or_raise row no_rows
    pure (scan_called r, r.priority_class)

  unfoldable pub update_next_walkin_ticket : CallNextInput → ℕ → Bool → Tx B (Ticket × String)
  update_next_walkin_ticket i called_at prefer_regular =
      or_if_no_rows
        (update_next_walkin_ticket_with_filter i called_at
          (if prefer_regular then only_regular else not_regular))
        (update_next_walkin_ticket_with_filter i called_at any_class)

  unfoldable pub update_next_appointment_ticket :
      CallNextInput → ℕ → ℕ → Bool → Tx B (Ticket × String)
  update_next_appointment_ticket i called_at cutoff prefer_regular =
      or_if_no_rows
        (update_next_appointment_ticket_with_filter i called_at
          (if prefer_regular then only_regular else not_regular) cutoff)
        (update_next_appointment_ticket_with_filter i called_at any_class cutoff)

  abbrev pub with_flag : Bool → Tx B (Ticket × String) → Tx B (Ticket × String × Bool)
  with_flag is_appointment m = m >>= λ r. pure (r.0, r.1, is_appointment)

  -- The ticket, its class, and whether it has an appointment.
  unfoldable pub update_next_ticket :
      CallNextInput → ℕ → Bool → Bool → ℕ → Tx B (Ticket × String × Bool)
  update_next_ticket i called_at prefer_regular prefer_appointment boost_cutoff =
      let appointment =
        with_flag true (update_next_appointment_ticket i called_at 0 prefer_regular) in
      let walkin = with_flag false (update_next_walkin_ticket i called_at prefer_regular) in
      let unboosted =
        (if prefer_appointment
          then or_if_no_rows appointment (or_if_no_rows walkin appointment)
          else or_if_no_rows walkin appointment) in
      if boost_cutoff == 0
      then unboosted
      else or_if_no_rows
          (with_flag true (update_next_appointment_ticket i called_at boost_cutoff prefer_regular))
          unboosted
