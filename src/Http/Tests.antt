-- ===== src/Http/Tests.antt =====
-- The theorems at concrete HTTP requests to the branch of the queue's fixture.
pub mod Fixture
use mathlib.Core.List.{Memᴰ}
use qms.Base.{
  String, true, false, none, List, [], ◌∷◌, ◌≡◌, ◌≤◌, ◌+◌, ◌-◌, ◌*◌, arith, refl, ◌=?◌,
  if◌then◌else◌, ℕ, find, maybe,
}
use qms.Queue.Chain.Linked.{IsChained}
use qms.Queue.Tests.Fixture.{platform, config, db, cancelled_ticket, start_state, unique, unlogged}
use qms.Http.Messages.{HttpRequest}
use qms.Http.Tests.Fixture.{parsers, request}
use qms.Http.Auth.{is_public_endpoint, session_id_from_request, bearer_token}
use qms.Queue.Accounts.{find_session}
use qms.Http.Writes.{handle_counter_status}
use qms.Http.Routes.{HandlerConfig, handle}
use qms.Http.RateLimit.{TokenLimiter, per_token}
use qms.Http.RateLimit.Bound.{allowed, allow_bounded}
use qms.Http.Refused.{Refuses, handle_counter_status-Refuses}
use qms.Http.Effects.{Effect}
use qms.Http.Effects.Granted.{IsGranted, handle-IsGranted, handle_unauthorized}
use qms.Http.Effects.Runs.{answer_all, answer_all-terminal, answer_all-IsChained}

abbrev handler : HandlerConfig
handler = record { no_show_return_to_queue = false; store = config }

abbrev cancel_request : HttpRequest
cancel_request = request "POST" "/api/tickets/1/actions/cancel" "k" "n1"

abbrev counter_request : HttpRequest
counter_request = request "PUT" "/api/counters/c/status" "k" "n2"

abbrev stranger : HttpRequest
stranger = request "POST" "/api/tickets/actions/call-next" "other" "n3"

abbrev requests : List HttpRequest
requests = request "POST" "/api/tickets" "" "n4" ∷ cancel_request ∷ stranger ∷ []

stranger_is_private : is_public_endpoint stranger ≡ false
unfolding is_public_endpoint
stranger_is_private = refl

stranger_has_no_session :
    (time : ℕ) → find_session (session_id_from_request platform parsers stranger) time db ≡ none
unfolding find_session session_id_from_request bearer_token find maybe
stranger_has_no_session time = refl

handle-IsGranted_example :
    Effect platform config
      (IsGranted platform parsers handler cancel_request start_state)
      start_state.db
      (handle platform parsers handler cancel_request start_state).1.db
handle-IsGranted_example = handle-IsGranted platform parsers handler cancel_request start_state

handle_unauthorized_example :
    (400 ≤ (handle platform parsers handler stranger start_state).0.status)
    × ((handle platform parsers handler stranger start_state).1.db ≡ start_state.db)
handle_unauthorized_example =
    handle_unauthorized platform parsers handler stranger start_state stranger_is_private
      stranger_has_no_session

handle_counter_status-Refuses_example :
    Refuses (handle_counter_status platform parsers counter_request none)
handle_counter_status-Refuses_example =
    handle_counter_status-Refuses platform parsers counter_request none

answer_all-terminal_example :
    Memᴰ cancelled_ticket (answer_all platform parsers handler requests start_state).db.tickets
answer_all-terminal_example =
    answer_all-terminal platform parsers handler requests cancelled_ticket start_state unique refl
      (Memᴰ.tail (Memᴰ.head refl))

answer_all-IsChained_example :
    IsChained platform (answer_all platform parsers handler requests start_state).db.ticket_events
answer_all-IsChained_example =
    answer_all-IsChained platform parsers handler requests start_state unlogged

-- Two requests of one key and one of another, at a limiter of one token.
abbrev calls : List (String × ℕ)
calls = ("a", 5) ∷ ("b", 6) ∷ ("a", 7) ∷ []

abbrev small : TokenLimiter
small = record { rate = 60; burst = 1; buckets = [] }

allow_bounded_example : allowed "a" calls small * per_token ≤ 1 * per_token + (8 - 5) * 60
allow_bounded_example = allow_bounded "a" calls small 5 8 (omega arith) (omega arith)
