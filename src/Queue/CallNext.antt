-- ===== src/Queue/CallNext.antt =====
-- services/queue-service/internal/store/postgres/store.go: `CallNext`. A boost in minutes is not
-- wrapped to 64 bits: up to 153 million minutes the source's `time.Duration` does not wrap either.
use qms.Base.{ℕ, ◌+◌, ◌*◌, Bool, true, ◌&&◌, none, some, if◌then◌else◌, maybe, ltb, leb}
use qms.Base.Int.{is_positive, pos_part}
use qms.Queue.Models.{Ticket, CallNextInput, or_now, no_ticket, access_denied, counter_unavailable}
use qms.Queue.Tx.{
  Platform, State, Tx, Answer, answered, refused, Done, pure, leave, ◌>>=◌, ◌>>◌, or_if_no_rows,
  now, transact,
}
use qms.Queue.Rows.{
  ServicePolicy, ensure_service_exists, counter_allows_service, get_counter_status,
  is_counter_available, get_service_policy,
}
use qms.Queue.Events.{insert_outbox_event_called}
use qms.Queue.Requests.{insert_action_request, unless_repeated}
use qms.Queue.Routing.{
  RoutingState, normalize_appointment_window, appointment_target_count, lock_routing_state,
  update_routing_state, update_next_ticket,
}

-- A full window starts anew.
abbrev pub fresh_window : RoutingState → ℕ → RoutingState
fresh_window state window =
    if leb window state.total_served
    then record state { appointment_served = 0; total_served = 0 }
    else state

abbrev pub prefers_appointment : ServicePolicy → RoutingState → ℕ → Bool
prefers_appointment policy state target =
    is_positive policy.appointment_ratio_percent && ltb state.appointment_served target

abbrev pub boost_cutoff : ServicePolicy → ℕ → ℕ
boost_cutoff policy called_at =
    if is_positive policy.appointment_boost_minutes
    then called_at + pos_part policy.appointment_boost_minutes * 60_000_000_000
    else 0

module _ {B : Type 0} (P : Platform B) (priority_streak_limit : ℕ) where
  -- From the lock of the routing state on.
  unfoldable pub call_with_counter : CallNextInput → Tx B (Answer (Ticket × Bool))
  call_with_counter i = do
    time ← now P
    let called_at : ℕ = or_now i.called_at time
    stored ← lock_routing_state P i.tenant_id i.branch_id i.service_id
    let prefer_regular : Bool = leb priority_streak_limit stored.priority_streak
    found_policy ← get_service_policy P i.tenant_id i.branch_id i.service_id
    let policy : ServicePolicy = found_policy.0
    let window : ℕ = normalize_appointment_window policy.appointment_window_size
    let target : ℕ = appointment_target_count policy.appointment_ratio_percent window
    let state : RoutingState = fresh_window stored window
    next ←
        or_if_no_rows
          (update_next_ticket P i called_at prefer_regular (prefers_appointment policy state target)
              (boost_cutoff policy called_at)
            >>= λ r. pure (some r))
          (pure none)
    maybe next
        (do
          insert_action_request P "call_next" i.request_id i.tenant_id i.branch_id i.service_id
              i.counter_id ""
          pure (refused no_ticket))
        λ r. do
          let t : Ticket = r.0
          let ticket : Ticket = record t { request_id = i.request_id }
          insert_action_request P "call_next" i.request_id i.tenant_id i.branch_id i.service_id
              i.counter_id ticket.ticket_id
          update_routing_state P i.tenant_id i.branch_id i.service_id state r.1 r.2 window
          insert_outbox_event_called P i.tenant_id ticket
          pure (answered (ticket, true))

  unfoldable pub call_first : CallNextInput → Tx B (Answer (Ticket × Bool))
  call_first i = do
    ensure_service_exists P i
    allowed ← counter_allows_service P i.counter_id i.service_id
    if allowed
        then (do
          status ← get_counter_status P i.counter_id i.branch_id
          if is_counter_available P status then call_with_counter i else leave counter_unavailable)
        else leave access_denied

  unfoldable pub call_body : CallNextInput → Tx B (Answer (Ticket × Bool))
  call_body i = unless_repeated P "call_next" i.request_id no_ticket (call_first i)

  unfoldable pub call_next : CallNextInput → State B → Done B (Ticket × Bool)
  unfolding call_body call_first call_with_counter
  call_next i = transact P (call_body i)
