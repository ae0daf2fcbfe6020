-- ===== src/Http/Routes.antt =====
-- services/queue-service/internal/httpapi/handler.go: `Routes`, `handleHealth` and
-- `handleTicketActions`. The path is as net/http's ServeMux matches it, after its cleaning.
use qms.Base.{String, Bool, not, ◌=?◌, Option, List, [], ◌∷◌, if◌then◌else◌}
use qms.Queue.Tx.{Platform, State}
use qms.Queue.Operations.{Config}
use qms.Http.Text.{split_slash, trim_slashes, trim_prefix, has_prefix}
use qms.Http.Messages.{HttpRequest, Parsers, Response, status_only}
use qms.Http.Web.{Web, Step, go, reply, pure, respond, ◌>>=◌, ◌>>◌, stop_if}
use qms.Http.Auth.{AuthInfo, authenticate}
use qms.Http.Decode.{invalid_request, require_method}
use qms.Http.Writes.{
  handle_tickets, handle_call_next, handle_appointment_checkin, handle_counter_status,
}
use qms.Http.Reads.{
  handle_ticket_snapshot, handle_active_ticket, handle_events, handle_counters, handle_services,
  handle_get_ticket, handle_ticket_events, handle_queues,
}
use qms.Http.Actions.{
  handle_complete_ticket, handle_cancel_ticket, handle_recall_ticket, handle_hold_ticket,
  handle_unhold_ticket, handle_no_show_ticket, handle_start_serving, handle_transfer_ticket,
}

-- `Handler`, less its store, and the `Store` behind it.
pub record HandlerConfig : Type 0 where
  pub no_show_return_to_queue : Bool
  pub store : Config

module _ {B : Type 0} (P : Platform B) (T : Parsers) (h : HandlerConfig) (r : HttpRequest) where
  unfoldable pub handle_health : Web B (Response B)
  handle_health = do require_method r "GET"; pure (status_only 200)

  -- The last `switch` of `handleTicketActions`.
  unfoldable pub dispatch_action : Option AuthInfo → String → String → Web B (Response B)
  dispatch_action info ticket_id action =
      if action =? "start"
      then handle_start_serving P T r info ticket_id
      else if action =? "complete"
      then handle_complete_ticket P T r info ticket_id
      else if action =? "cancel"
      then handle_cancel_ticket P T r info ticket_id
      else if action =? "recall"
      then handle_recall_ticket P T r info ticket_id
      else if action =? "hold"
      then handle_hold_ticket P T r info ticket_id
      else if action =? "unhold"
      then handle_unhold_ticket P T r info ticket_id
      else if action =? "transfer"
      then handle_transfer_ticket P T r info ticket_id
      else if action =? "no-show"
      then handle_no_show_ticket P T r h.no_show_return_to_queue info ticket_id
      else respond (status_only 404)

  -- What follows the ticket's id: a path of two parts may ask for the events, one of three names an
  -- action.
  unfoldable pub dispatch_parts : Option AuthInfo → String → List String → Web B (Response B)
  dispatch_parts info ticket_id (word ∷ []) =
      if word =? "events"
      then (require_method r "GET" >> handle_ticket_events P T r info ticket_id)
      else (require_method r "POST" >> respond (status_only 404))
  dispatch_parts info ticket_id (word ∷ action ∷ []) = do
    require_method r "POST"
    if word =? "actions" then dispatch_action info ticket_id action else respond (status_only 404)
  dispatch_parts info ticket_id _ = require_method r "POST" >> respond (status_only 404)

  unfoldable pub ticket_actions_at : Option AuthInfo → List String → Web B (Response B)
  ticket_actions_at info [] = respond (status_only 404)
  ticket_actions_at info (ticket_id ∷ []) =
      if r.method =? "GET"
      then handle_get_ticket P T r info ticket_id
      else respond (status_only 404)
  ticket_actions_at info (ticket_id ∷ word ∷ more) = do
    stop_if (not (T.is_valid_uuid ticket_id)) (invalid_request "" "ticket_id must be a UUID")
    dispatch_parts info ticket_id (word ∷ more)

  unfoldable pub handle_ticket_actions : Option AuthInfo → Web B (Response B)
  handle_ticket_actions info =
      ticket_actions_at info (split_slash (trim_slashes (trim_prefix r.path "/api/tickets/")))

  -- The patterns of `Routes`: the exact ones first, then the longest prefix.
  unfoldable pub serve_mux : Option AuthInfo → Web B (Response B)
  serve_mux info =
      if r.path =? "/healthz"
      then handle_health
      else if r.path =? "/metrics"
      then pure (status_only 200)
      else if r.path =? "/api/tickets"
      then handle_tickets P T r
      else if r.path =? "/api/tickets/actions/call-next"
      then handle_call_next P T r h.store info
      else if r.path =? "/api/tickets/active"
      then handle_active_ticket P T r info
      else if r.path =? "/api/tickets/snapshot"
      then handle_ticket_snapshot P T r info
      else if has_prefix r.path "/api/tickets/"
      then handle_ticket_actions info
      else if r.path =? "/api/queues"
      then handle_queues P T r info
      else if r.path =? "/api/appointments/checkin"
      then handle_appointment_checkin P T r info
      else if r.path =? "/api/events"
      then handle_events P T r info
      else if r.path =? "/api/counters"
      then handle_counters P T r info
      else if has_prefix r.path "/api/counters/"
      then handle_counter_status P T r info
      else if r.path =? "/api/services"
      then handle_services P T r
      else respond (status_only 404)

  -- `AuthMiddleware` round the multiplexer.
  unfoldable pub routes : Web B (Response B)
  routes = authenticate P T r >>= serve_mux

-- The response to a request, whichever way its handler has written it, and the state after it.
abbrev pub response_of : {B : Type 0} → Step B (Response B) → Response B
response_of (go x) = x
response_of (reply x) = x

unfoldable pub handle :
    {B : Type 0}
    → Platform B
    → Parsers
    → HandlerConfig
    → HttpRequest
    → State B
    → Response B × State B
handle P T h r s = let (x, s') = routes P T h r s in (response_of x, s')
