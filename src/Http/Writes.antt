-- ===== src/Http/Writes.antt =====
-- services/queue-service/internal/httpapi/handler.go: `handleTickets`, `handleCallNext`,
-- `handleAppointmentCheckin` and `handleCounterStatus`.
use qms.Base.{String, Bool, not, ◌&&◌, ◌||◌, ◌=?◌, Option, List, [], ◌∷◌, if◌then◌else◌}
use qms.Queue.Models.{Ticket, no_ticket, CreateTicketInput, CallNextInput}
use qms.Queue.Tx.{Platform, Answer, answered, refused}
use qms.Queue.Operations.{Config}
use qms.Queue.Create.{create_ticket, check_in_appointment}
use qms.Queue.CallNext.{call_next}
use qms.Queue.Reads.{update_counter_status}
use qms.Http.Text.{split_slash, trim_slashes, trim_prefix, is_valid_phone}
use qms.Http.Messages.{
  HttpRequest, Parsers, CreateTicketRequest, CallNextRequest, CheckInRequest, Response, ticket,
  status_only, ok_with, write_error, map_error,
}
use qms.Http.Web.{Web, pure, respond, ask, submit, ◌>>=◌, ◌>>◌, stop_if, or_map_error, now}
use qms.Http.Auth.{AuthInfo, require_tenant, require_branch_access, require_service_access}
use qms.Http.Decode.{
  invalid_json, invalid_request, require_method, some_empty, some_not_uuid, decode_counter_status,
}

abbrev pub or_default : String → String → String
or_default value default = if value =? "" then default else value

module _ {B : Type 0} (P : Platform B) (T : Parsers) (r : HttpRequest) where
  -- The checks of `handleTickets`, up to the input of `CreateTicket`.
  unfoldable pub read_create : Web B CreateTicketRequest
  read_create = do
    require_method r "POST"
    let decoded = r.body.as_create
    let value : CreateTicketRequest = decoded.value
    stop_if (not decoded.is_ok) (invalid_json value.request_id)
    let id : String = P.trim_space value.request_id
    let tenant_id : String = P.trim_space value.tenant_id
    let branch_id : String = P.trim_space value.branch_id
    let service_id : String = P.trim_space value.service_id
    let phone : String = P.trim_space value.phone
    let ids : List String = id ∷ tenant_id ∷ branch_id ∷ service_id ∷ []
    stop_if (some_empty ids)
        (invalid_request id "request_id, tenant_id, branch_id, and service_id are required")
    stop_if (some_not_uuid T ids)
        (invalid_request id "request_id, tenant_id, branch_id, and service_id must be UUIDs")
    stop_if (not (value.area_id =? "") && not (T.is_valid_uuid value.area_id))
        (invalid_request id "area_id must be a UUID when provided")
    stop_if (not (phone =? "") && not (is_valid_phone phone))
        (invalid_request id "phone must be 8-16 digits")
    pure (record {
      request_id = id;
      tenant_id = tenant_id;
      branch_id = branch_id;
      service_id = service_id;
      area_id = value.area_id;
      channel = or_default (P.trim_space value.channel) "staff";
      priority_class = or_default (P.trim_space value.priority_class) "regular";
      phone = phone;
    })

  unfoldable pub handle_tickets : Web B (Response B)
  handle_tickets = do
    req ← read_create
    time ← now P
    let input : CreateTicketInput = record {
      request_id = req.request_id;
      tenant_id = req.tenant_id;
      branch_id = req.branch_id;
      service_id = req.service_id;
      area_id = req.area_id;
      channel = req.channel;
      priority_class = req.priority_class;
      phone = req.phone;
      created_at = time;
    }
    answer ← submit (create_ticket P input)
    created ← or_map_error req.request_id answer
    pure (ok_with (ticket created.0))

  unfoldable pub read_call_next : Option AuthInfo → Web B CallNextRequest
  read_call_next info = do
    require_method r "POST"
    let decoded = r.body.as_call_next
    let value : CallNextRequest = decoded.value
    stop_if (not decoded.is_ok) (invalid_json value.request_id)
    let req : CallNextRequest = record {
      request_id = P.trim_space value.request_id;
      tenant_id = P.trim_space value.tenant_id;
      branch_id = P.trim_space value.branch_id;
      service_id = P.trim_space value.service_id;
      counter_id = P.trim_space value.counter_id;
    }
    let ids : List String =
        req.request_id ∷ req.tenant_id ∷ req.branch_id ∷ req.service_id ∷ req.counter_id ∷ []
    stop_if (some_empty ids) (
        invalid_request req.request_id
          "request_id, tenant_id, branch_id, service_id, and counter_id are required")
    stop_if (some_not_uuid T ids) (
        invalid_request req.request_id
          "request_id, tenant_id, branch_id, service_id, and counter_id must be UUIDs")
    require_tenant P T r info req.tenant_id
    require_branch_access P T r info req.branch_id
    require_service_access P T r info req.service_id
    pure req

  -- An empty queue has an error code of its own.
  abbrev pub or_queue_empty : String → Answer (Ticket × Bool) → Web B (Ticket × Bool)
  or_queue_empty id (answered t) = pure t
  or_queue_empty id (refused no_ticket) =
      respond (write_error id 409 "queue_empty" "no tickets available")
  or_queue_empty id (refused e) = respond (map_error id e)

  unfoldable pub handle_call_next : Config → Option AuthInfo → Web B (Response B)
  handle_call_next c info = do
    req ← read_call_next info
    time ← now P
    let input : CallNextInput = record {
      request_id = req.request_id;
      tenant_id = req.tenant_id;
      branch_id = req.branch_id;
      service_id = req.service_id;
      counter_id = req.counter_id;
      called_at = time;
    }
    answer ← submit (call_next P c.priority_streak_limit input)
    called ← or_queue_empty req.request_id answer
    pure (ok_with (ticket called.0))

  unfoldable pub read_check_in : Option AuthInfo → Web B CheckInRequest
  read_check_in info = do
    require_method r "POST"
    let decoded = r.body.as_check_in
    let value : CheckInRequest = decoded.value
    stop_if (not decoded.is_ok) (invalid_json value.request_id)
    let req : CheckInRequest = record {
      request_id = P.trim_space value.request_id;
      tenant_id = P.trim_space value.tenant_id;
      branch_id = P.trim_space value.branch_id;
      appointment_id = P.trim_space value.appointment_id;
    }
    let ids : List String = req.request_id ∷ req.tenant_id ∷ req.branch_id ∷ req.appointment_id ∷ []
    stop_if (some_empty ids) (
        invalid_request req.request_id
          "request_id, tenant_id, branch_id, appointment_id are required")
    stop_if (some_not_uuid T ids) (invalid_request req.request_id "ids must be UUIDs")
    require_tenant P T r info req.tenant_id
    require_branch_access P T r info req.branch_id
    pure req

  unfoldable pub handle_appointment_checkin : Option AuthInfo → Web B (Response B)
  handle_appointment_checkin info = do
    req ← read_check_in info
    answer ←
        submit
          (check_in_appointment P req.request_id req.tenant_id req.branch_id req.appointment_id)
    created ← or_map_error req.request_id answer
    pure (ok_with (ticket created))

  unfoldable pub normalize_counter_status : String → String
  normalize_counter_status status =
      let s = P.to_lower (P.trim_space status) in
      if s =? "available" || (s =? "busy" || (s =? "break" || s =? "active")) then s else ""

  -- `handleCounterStatus` for a path of two parts that ends in `status`.
  unfoldable pub change_counter_status : Option AuthInfo → String → Web B (Response B)
  change_counter_status info counter_id = do
    require_method r "PUT"
    stop_if (not (T.is_valid_uuid counter_id)) (invalid_request "" "counter_id must be a UUID")
    value ← decode_counter_status P T r
    let status : String = normalize_counter_status value.status
    stop_if (some_not_uuid T (value.tenant_id ∷ value.branch_id ∷ []))
        (invalid_request "" "tenant_id and branch_id are required")
    stop_if (status =? "") (invalid_request "" "status is required")
    require_tenant P T r info value.tenant_id
    require_branch_access P T r info value.branch_id
    answer ← ask (update_counter_status P value.tenant_id value.branch_id counter_id status)
    done ← or_map_error "" answer
    pure (status_only 204)

  unfoldable pub counter_status_at : Option AuthInfo → List String → Web B (Response B)
  counter_status_at info (counter_id ∷ word ∷ []) =
      if word =? "status" then change_counter_status info counter_id else respond (status_only 404)
  counter_status_at info _ = respond (status_only 404)

  unfoldable pub handle_counter_status : Option AuthInfo → Web B (Response B)
  handle_counter_status info =
      counter_status_at info (split_slash (trim_slashes (trim_prefix r.path "/api/counters/")))
