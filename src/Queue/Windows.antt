-- ===== src/Queue/Windows.antt =====
-- store/postgres/store.go: `updateRoutingState`, the counts of appointments within a window.
use qms.Base.{◌≤◌, ◌<◌, String, Bool, arith}
use qms.Base.Int.{ℤ, pos, negsuc}
use qms.Queue.Routing.{RoutingState, normalize_appointment_window, next_routing_state}
use qms.Queue.CallNext.{fresh_window}

normalize_positive : (value : ℤ) → 0 < normalize_appointment_window value
unfolding normalize_appointment_window
normalize_positive (pos n) = ground arith
normalize_positive (negsuc n) = ground arith

-- A call leaves fewer tickets in the window of its service than the window has places, and no more
-- appointments among them than tickets, whatever the policy and the ticket that was called, if the
-- stored counts had no more appointments than tickets.
pub next_routing_state_window :
    (s : RoutingState) (class : String) (is_appointment : Bool) (value : ℤ)
    → s.appointment_served ≤ s.total_served
    → let w = normalize_appointment_window value in
      let r = next_routing_state (fresh_window s w) class is_appointment w in
      (r.appointment_served ≤ r.total_served) × (r.total_served < w)
unfolding next_routing_state
next_routing_state_window s class is_appointment value h = ground (arith, normalize_positive value)
