-- ===== src/Http/Actions.antt =====
-- services/queue-service/internal/httpapi/handler.go: the actions on a ticket.
use qms.Base.{ℕ, String, Bool, false, not, ◌=?◌, Option}
use qms.Queue.Models.{Ticket, TicketActionInput}
use qms.Queue.Tx.{Platform, State, Done}
use qms.Queue.Actions.{transfer_ticket}
use qms.Queue.Operations.{
  start_serving, complete_ticket, cancel_ticket, hold_ticket, unhold_ticket, no_show_ticket,
  recall_ticket,
}
use qms.Http.Messages.{HttpRequest, Parsers, TicketActionRequest, Response, ticket, ok_with}
use qms.Http.Web.{Web, pure, submit, ◌>>=◌, ◌>>◌, stop_if, or_map_error, now}
use qms.Http.Auth.{AuthInfo, require_tenant, require_branch_access, require_service_access}
use qms.Http.Decode.{invalid_request, decode_action, decode_transfer}

-- The input of an action, where a handler leaves the other fields out.
abbrev pub action_input : TicketActionRequest → String → ℕ → TicketActionInput
action_input req ticket_id time = record {
  request_id = req.request_id;
  tenant_id = req.tenant_id;
  branch_id = req.branch_id;
  ticket_id = ticket_id;
  counter_id = "";
  service_id = "";
  reason = "";
  occurred_at = time;
  return_to_queue = false;
}

module _ {B : Type 0} (P : Platform B) (T : Parsers) (r : HttpRequest) where
  -- The end of every action.
  unfoldable pub run_action :
      String
      → (TicketActionInput → State B → Done B (Ticket × Bool))
      → TicketActionInput
      → Web B (Response B)
  run_action request_id operation input = do
    answer ← submit (operation input)
    changed ← or_map_error request_id answer
    pure (ok_with (ticket changed.0))

  -- The handlers that check the tenant alone: complete, cancel, recall, hold and unhold.
  unfoldable pub handle_simple :
      (TicketActionInput → State B → Done B (Ticket × Bool))
      → Option AuthInfo
      → String
      → Web B (Response B)
  handle_simple operation info ticket_id = do
    req ← decode_action P T r
    require_tenant P T r info req.tenant_id
    time ← now P
    run_action req.request_id operation (action_input req ticket_id time)

  unfoldable pub handle_complete_ticket : Option AuthInfo → String → Web B (Response B)
  handle_complete_ticket = handle_simple (complete_ticket P)

  unfoldable pub handle_cancel_ticket : Option AuthInfo → String → Web B (Response B)
  handle_cancel_ticket = handle_simple (cancel_ticket P)

  unfoldable pub handle_recall_ticket : Option AuthInfo → String → Web B (Response B)
  handle_recall_ticket = handle_simple (recall_ticket P)

  unfoldable pub handle_hold_ticket : Option AuthInfo → String → Web B (Response B)
  handle_hold_ticket = handle_simple (hold_ticket P)

  unfoldable pub handle_unhold_ticket : Option AuthInfo → String → Web B (Response B)
  handle_unhold_ticket = handle_simple (unhold_ticket P)

  -- The option comes from the handler's configuration.
  unfoldable pub handle_no_show_ticket : Bool → Option AuthInfo → String → Web B (Response B)
  handle_no_show_ticket return_to_queue info ticket_id = do
    req ← decode_action P T r
    require_tenant P T r info req.tenant_id
    time ← now P
    let input : TicketActionInput = action_input req ticket_id time
    run_action req.request_id (no_show_ticket P)
        (record input { return_to_queue = return_to_queue })

  -- The check of the branch stands eight times.
  unfoldable pub handle_start_serving : Option AuthInfo → String → Web B (Response B)
  handle_start_serving info ticket_id = do
    req ← decode_action P T r
    require_tenant P T r info req.tenant_id
    require_branch_access P T r info req.branch_id
    require_branch_access P T r info req.branch_id
    require_branch_access P T r info req.branch_id
    require_branch_access P T r info req.branch_id
    require_branch_access P T r info req.branch_id
    require_branch_access P T r info req.branch_id
    require_branch_access P T r info req.branch_id
    require_branch_access P T r info req.branch_id
    let counter_id : String = P.trim_space req.counter_id
    stop_if (counter_id =? "") (invalid_request req.request_id "counter_id is required")
    stop_if (not (T.is_valid_uuid counter_id))
        (invalid_request req.request_id "counter_id must be a UUID")
    time ← now P
    let input : TicketActionInput = action_input req ticket_id time
    run_action req.request_id (start_serving P) (record input { counter_id = counter_id })

  unfoldable pub handle_transfer_ticket : Option AuthInfo → String → Web B (Response B)
  handle_transfer_ticket info ticket_id = do
    req ← decode_transfer P T r
    require_tenant P T r info req.tenant_id
    let service_id : String = P.trim_space req.to_service_id
    stop_if (service_id =? "") (invalid_request req.request_id "to_service_id is required")
    stop_if (not (T.is_valid_uuid service_id))
        (invalid_request req.request_id "to_service_id must be a UUID")
    require_service_access P T r info service_id
    time ← now P
    run_action req.request_id (transfer_ticket P) (record {
      request_id = req.request_id;
      tenant_id = req.tenant_id;
      branch_id = req.branch_id;
      ticket_id = ticket_id;
      counter_id = req.counter_id;
      service_id = service_id;
      reason = P.trim_space req.reason;
      occurred_at = time;
      return_to_queue = false;
    })
