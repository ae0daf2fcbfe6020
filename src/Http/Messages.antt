-- ===== src/Http/Messages.antt =====
-- services/queue-service/internal/httpapi/handler.go: requests, responses and `mapError`. What
-- net/http, encoding/json, package time and the UUID parser read from a request is given with it.
use qms.Base.{ℕ, String, Bool, Option, List}
use qms.Base.Int.{ℤ}
use qms.Queue.Models
use qms.Queue.Models.{Ticket, Error}
use qms.Queue.Db.{CounterRow, ServiceRow, OutboxEvent}
use qms.Queue.Rehydrate.{TicketEvent}

pub record CreateTicketRequest : Type 0 where
  pub request_id : String
  pub tenant_id : String
  pub branch_id : String
  pub service_id : String
  pub area_id : String
  pub channel : String
  pub priority_class : String
  pub phone : String

pub record CallNextRequest : Type 0 where
  pub request_id : String
  pub tenant_id : String
  pub branch_id : String
  pub service_id : String
  pub counter_id : String

pub record CheckInRequest : Type 0 where
  pub request_id : String
  pub tenant_id : String
  pub branch_id : String
  pub appointment_id : String

pub record CounterStatusRequest : Type 0 where
  pub tenant_id : String
  pub branch_id : String
  pub status : String

pub record TicketActionRequest : Type 0 where
  pub request_id : String
  pub tenant_id : String
  pub branch_id : String
  pub counter_id : String

pub record TransferRequest : Type 0 where
  pub request_id : String
  pub tenant_id : String
  pub branch_id : String
  pub counter_id : String
  pub to_service_id : String
  pub reason : String

-- What the decoder has filled in, and whether it met no error.
pub record Decoded (A : Type 0) : Type 0 where
  pub value : A
  pub is_ok : Bool

-- The body as each handler's decoder reads it. A handler reads it once.
pub record Body : Type 0 where
  pub as_create : Decoded CreateTicketRequest
  pub as_call_next : Decoded CallNextRequest
  pub as_check_in : Decoded CheckInRequest
  pub as_counter_status : Decoded CounterStatusRequest
  pub as_action : Decoded TicketActionRequest
  pub as_transfer : Decoded TransferRequest

pub record HttpRequest : Type 0 where
  pub method : String
  pub path : String
  pub query : String → String
  pub header : String → String
  pub body : Body

-- What the handlers take from other packages: the UUID parser, `time.Parse` and `strconv.Atoi` with
-- `none` for their errors, `strings.Fields`, and the database's order of texts.
pub record Parsers : Type 0 where
  pub is_valid_uuid : String → Bool
  pub parse_time : String → Option ℕ
  pub parse_int : String → Option ℤ
  pub fields : String → List String
  pub text_before : String → String → Bool

pub data Payload (B : Type 0) : Type 0 where
  no_payload : Payload B
  error : String → String → String → Payload B
  ticket : Ticket → Payload B
  tickets : List Ticket → Payload B
  outbox : List (OutboxEvent B) → Payload B
  log : List (TicketEvent B) → Payload B
  counters : List CounterRow → Payload B
  services : List ServiceRow → Payload B

pub record Response (B : Type 0) : Type 0 where
  pub status : ℕ
  pub payload : Payload B

abbrev pub status_only : {B : Type 0} → ℕ → Response B
status_only code = record { status = code; payload = no_payload }

abbrev pub ok_with : {B : Type 0} → Payload B → Response B
ok_with p = record { status = 200; payload = p }

-- `writeError`
unfoldable pub write_error : {B : Type 0} → String → ℕ → String → String → Response B
write_error request_id code name message = record {
  status = code;
  payload = error request_id name message;
}

-- `mapError`, with the `writeError` that follows it everywhere.
unfoldable pub map_error : {B : Type 0} → String → Error → Response B
unfolding write_error
map_error id Models.service_not_found = write_error id 404 "service_not_found" "service not found"
map_error id Models.ticket_not_found = write_error id 404 "ticket_not_found" "ticket not found"
map_error id Models.invalid_state =
    write_error id 409 "invalid_state" "ticket state does not allow this action"
map_error id Models.counter_mismatch =
    write_error id 409 "counter_mismatch" "ticket assigned to different counter"
map_error id Models.counter_not_found = write_error id 404 "counter_not_found" "counter not found"
map_error id Models.counter_unavailable =
    write_error id 409 "counter_unavailable" "counter unavailable"
map_error id Models.access_denied = write_error id 403 "access_denied" "access denied"
map_error id Models.branch_not_found = write_error id 404 "branch_not_found" "branch not found"
map_error id Models.holiday_closed =
    write_error id 409 "holiday_closed" "appointments are closed for this holiday"
map_error id _ = write_error id 500 "internal_error" "internal server error"
