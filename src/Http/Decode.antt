-- ===== src/Http/Decode.antt =====
-- services/queue-service/internal/httpapi/handler.go: `decodeRequest`, and the checks that several
-- handlers begin with.
use qms.Base.{String, Bool, not, ◌=?◌, List, [], ◌∷◌, any}
use qms.Queue.Tx.{Platform}
use qms.Http.Messages.{
  HttpRequest, Parsers, TicketActionRequest, TransferRequest, CounterStatusRequest, Response,
  status_only, write_error,
}
use qms.Http.Web.{Web, pure, respond, ◌>>◌, stop_if}

abbrev pub invalid_json : {B : Type 0} → String → Response B
invalid_json id = write_error id 400 "invalid_json" "invalid JSON payload"

abbrev pub invalid_request : {B : Type 0} → String → String → Response B
invalid_request id message = write_error id 400 "invalid_request" message

-- `r.Method != …`, which is answered by a bare 405.
abbrev pub require_method : {B : Type 0} → HttpRequest → String → Web B (Unit {0})
require_method r method = stop_if (not (r.method =? method)) (status_only 405)

abbrev pub some_empty : List String → Bool
some_empty values = any (λ (v : String). v =? "") values

abbrev pub some_not_uuid : Parsers → List String → Bool
some_not_uuid T values = any (λ (v : String). not (T.is_valid_uuid v)) values

module _ {B : Type 0} (P : Platform B) (T : Parsers) (r : HttpRequest) where
  -- `strings.TrimSpace(r.URL.Query().Get(name))`
  abbrev pub query_value : String → String
  query_value name = P.trim_space (r.query name)

  -- The checks of the two known types of target.
  check_ids : String → String → String → Web B (Unit {0})
  check_ids request_id tenant_id branch_id = do
    let ids : List String = request_id ∷ tenant_id ∷ branch_id ∷ []
    stop_if (some_empty ids)
        (invalid_request request_id "request_id, tenant_id, and branch_id are required")
    stop_if (some_not_uuid T ids)
        (invalid_request request_id "request_id, tenant_id, and branch_id must be UUIDs")

  unfoldable pub decode_action : Web B TicketActionRequest
  unfolding check_ids
  decode_action = do
    let decoded = r.body.as_action
    stop_if (not decoded.is_ok) (invalid_json "")
    let value : TicketActionRequest = decoded.value
    let req : TicketActionRequest = record {
      request_id = P.trim_space value.request_id;
      tenant_id = P.trim_space value.tenant_id;
      branch_id = P.trim_space value.branch_id;
      counter_id = P.trim_space value.counter_id;
    }
    check_ids req.request_id req.tenant_id req.branch_id
    pure req

  unfoldable pub decode_transfer : Web B TransferRequest
  unfolding check_ids
  decode_transfer = do
    let decoded = r.body.as_transfer
    stop_if (not decoded.is_ok) (invalid_json "")
    let value : TransferRequest = decoded.value
    let req : TransferRequest = record {
      request_id = P.trim_space value.request_id;
      tenant_id = P.trim_space value.tenant_id;
      branch_id = P.trim_space value.branch_id;
      counter_id = P.trim_space value.counter_id;
      to_service_id = P.trim_space value.to_service_id;
      reason = value.reason;
    }
    check_ids req.request_id req.tenant_id req.branch_id
    pure req

  -- A target of any other type is refused by the last `switch`, even if it was decoded.
  unfoldable pub decode_counter_status : Web B CounterStatusRequest
  decode_counter_status = do
    let decoded = r.body.as_counter_status
    stop_if (not decoded.is_ok) (invalid_json "")
    respond (invalid_request "" "invalid request payload")
