-- ===== src/Queue/Tests/Fixture.antt =====
-- A branch with two services and one counter, and a database that never fails.
use Prim.Native.String.{◌++◌ as append}
use qms.Base.{
  ◌/◌, ◌*◌, select, arith, eq_iff, refl, ◌≡◌, ◌≢◌, ◌=?◌, ℕ, ◌+◌, String, true, false, none, some,
  [], ◌∷◌,
}
use qms.Base.Int.{pos}
use qms.Queue.Models.{Status, waiting, TicketActionInput, CallNextInput, CreateTicketInput}
use qms.Queue.Payload.{Object, EventPayload}
use qms.Queue.Db.{Db, TicketRow, ActionRequest, ServiceRow, AppointmentRow}
use qms.Queue.Decimal.{decimal}
use qms.Queue.Tx.{Platform, State}
use qms.Queue.Operations.{Config}
use qms.Queue.Lifecycle.Evolves.{Unique}
use qms.Queue.Chain.Linked.{IsChained}

abbrev no_payload : EventPayload
no_payload = record {
  ticket_id = "";
  ticket_number = "";
  status = "";
  tenant_id = "";
  branch_id = "";
  service_id = "";
  from_service_id = "";
  to_service_id = "";
  created_at = none;
  called_at = none;
  served_at = none;
  completed_at = none;
  counter_id = none;
}

abbrev pub platform : Platform Object
platform = record {
  clock = λ n. 1000 + n;
  uuid = λ n. append "id-" (decimal n);
  fails = λ n. false;
  locked = λ n id. false;
  marshal = λ o. some o;
  unmarshal = λ o. some no_payload;
  is_empty = λ o. false;
  text_of = λ o. "";
  format_time = decimal;
  jsonb = λ o. o;
  timestamptz = λ n. n / 1000 * 1000;
  sha256_hex = λ s. s;
  trim_space = λ s. s;
  to_lower = λ s. s;
}

abbrev pub config : Config
config = record { no_show_return_to_queue = false; priority_streak_limit = 3 }

abbrev pub ticket : String → Status → String → ℕ → TicketRow
ticket id status class time = record {
  ticket_id = id;
  request_id = append "create-" id;
  ticket_number = append "A-" id;
  tenant_id = "t";
  branch_id = "b";
  service_id = "s";
  area_id = none;
  status = status;
  channel = "kiosk";
  priority_class = class;
  created_at = time;
  called_at = none;
  served_at = none;
  completed_at = none;
  counter_id = none;
  returned = false;
  phone_hash = none;
  appointment_id = none;
}

abbrev service : String → String → ServiceRow
service id code = record {
  service_id = id;
  branch_id = "b";
  name = code;
  code = code;
  active = true;
  sla_minutes = pos 5;
  priority_policy = "";
  hours_json = none;
}

abbrev pub vip_service : ServiceRow
vip_service = service "v" "V"

abbrev pub booking : AppointmentRow
booking = record {
  appointment_id = "p";
  tenant_id = "t";
  branch_id = "b";
  service_id = "s";
  scheduled_at = 500;
  scheduled_date = 7;
  status = "scheduled";
}

abbrev pub answered_call : ActionRequest
answered_call = record {
  request_id = "r1";
  action = "cancel";
  tenant_id = "t";
  branch_id = "b";
  service_id = none;
  counter_id = none;
  ticket_id = some "2";
}

abbrev pub first_ticket : TicketRow
first_ticket = ticket "1" waiting "regular" 10

abbrev pub cancelled_ticket : TicketRow
cancelled_ticket = ticket "2" Status.cancelled "regular" 11

abbrev pub vip_ticket : TicketRow
vip_ticket = ticket "3" waiting "vip" 12

-- Two waiting tickets, one of them privileged, and a cancelled one.
abbrev pub db : Db Object
db = record {
  tickets = first_ticket ∷ cancelled_ticket ∷ vip_ticket ∷ [];
  action_requests = answered_call ∷ [];
  sequences = [];
  routing = [];
  policies = [];
  branches = record { branch_id = "b"; tenant_id = "t"; name = "B" } ∷ [];
  services = service "s" "A" ∷ vip_service ∷ [];
  counters = record { counter_id = "c"; branch_id = "b"; name = "1"; status = "active" } ∷ [];
  counter_services = record { counter_id = "c"; service_id = "s" } ∷ [];
  appointments = booking ∷ [];
  holidays =
      record { holiday_id = "h"; tenant_id = "t"; branch_id = "b"; date = 7; name = "H" } ∷ [];
  outbox_events = [];
  ticket_events = [];
  sessions = record { session_id = "k"; user_id = "u"; expires_at = 5000 } ∷ [];
  users =
      record {
        user_id = "u";
        tenant_id = "t";
        role_id = "agent";
        email = "u@t";
        password_hash = "secret";
        active = true;
        created_at = 5;
      }
      ∷ [];
  roles = record { role_id = "agent"; tenant_id = "t"; name = "agent" } ∷ [];
  user_idp_mappings = [];
  user_branch_access = record { user_id = "u"; granted = "b" } ∷ [];
  user_service_access = [];
  areas = [];
  devices = [];
  device_configs = [];
  audit_logs = [];
  approval_requests = [];
  tenant_approval_prefs = [];
}

abbrev pub start_state : State Object
start_state = record { db = db; tick = 0 }

abbrev pub on_ticket : String → String → TicketActionInput
on_ticket request_id ticket_id = record {
  request_id = request_id;
  tenant_id = "t";
  branch_id = "b";
  ticket_id = ticket_id;
  counter_id = "c";
  service_id = "v";
  reason = "";
  occurred_at = 0;
  return_to_queue = false;
}

abbrev pub call_of : String → String → CallNextInput
call_of request_id service_id = record {
  request_id = request_id;
  tenant_id = "t";
  branch_id = "b";
  service_id = service_id;
  counter_id = "c";
  called_at = 0;
}

abbrev pub new_visit : String → CreateTicketInput
new_visit request_id = record {
  request_id = request_id;
  tenant_id = "t";
  branch_id = "b";
  service_id = "s";
  area_id = "";
  channel = "kiosk";
  priority_class = "regular";
  phone = "";
  created_at = 0;
}

pub differ : (a b : String) → (a =? b) ≡ false → a ≢ b
differ a b h q = ground (arith, eq_iff a b, h, q)

pub unique : Unique db.tickets
unique = ((differ "2" "1" refl, (differ "3" "1" refl, tt)), ((differ "3" "2" refl, tt), (tt, tt)))

pub unlogged : IsChained platform db.ticket_events
unfolding select
unlogged = λ id. tt
