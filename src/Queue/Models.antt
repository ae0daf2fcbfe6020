-- ===== src/Queue/Models.antt =====
-- services/queue-service/internal/models, and the inputs and errors of internal/store/store.go and
-- internal/store/errors.go. A time is the number of nanoseconds since Go's zero `time.Time`, so
-- `IsZero` is the test for 0; a pointer is an `Option`.
use qms.Base.{ℕ, String, Bool, true, false, Option, none, ◌≡◌, ◌=?◌, ◌==◌, if◌then◌else◌, arith}

-- The column type `ticket_status` of the migrations, whose values are the constants of ticket.go.
pub data Status : Type 0 where
  waiting called serving done no_show cancelled held : Status

abbrev pub status_eq : Status → Status → Bool
status_eq waiting waiting = true
status_eq called called = true
status_eq serving serving = true
status_eq done done = true
status_eq no_show no_show = true
status_eq cancelled cancelled = true
status_eq held held = true
status_eq _ _ = false

pub status_eq→eq : (s t : Status) → status_eq s t ≡ true → s ≡ t
status_eq→eq s t h = ground arith

-- The text of a status, which `models.Ticket` holds.
unfoldable pub status_text : Status → String
status_text waiting = "waiting"
status_text called = "called"
status_text serving = "serving"
status_text done = "done"
status_text no_show = "no_show"
status_text cancelled = "cancelled"
status_text held = "held"

pub record Ticket : Type 0 where
  pub ticket_id : String
  pub ticket_number : String
  pub tenant_id : String
  pub branch_id : String
  pub service_id : String
  pub area_id : String
  pub status : String
  pub created_at : ℕ
  pub request_id : String
  pub called_at : Option ℕ
  pub counter_id : Option String
  pub served_at : Option ℕ
  pub completed_at : Option ℕ
  pub phone : String

-- `models.Ticket{}`
abbrev pub no_ticket_value : Ticket
no_ticket_value = record {
  ticket_id = "";
  ticket_number = "";
  tenant_id = "";
  branch_id = "";
  service_id = "";
  area_id = "";
  status = "";
  created_at = 0;
  request_id = "";
  called_at = none;
  counter_id = none;
  served_at = none;
  completed_at = none;
  phone = "";
}

-- errors.go, and what the database driver and encoding/json return: `no_rows` is `pgx.ErrNoRows`,
-- `failure` any other error of theirs.
pub data Error : Type 0 where
  service_not_found branch_not_found no_ticket ticket_not_found invalid_state : Error
  counter_mismatch counter_not_found counter_unavailable access_denied holiday_closed : Error
  session_not_found no_rows failure : Error

pub record CreateTicketInput : Type 0 where
  pub request_id : String
  pub tenant_id : String
  pub branch_id : String
  pub service_id : String
  pub area_id : String
  pub channel : String
  pub priority_class : String
  pub phone : String
  pub created_at : ℕ

pub record CallNextInput : Type 0 where
  pub request_id : String
  pub tenant_id : String
  pub branch_id : String
  pub service_id : String
  pub counter_id : String
  pub called_at : ℕ

pub record TicketActionInput : Type 0 where
  pub request_id : String
  pub tenant_id : String
  pub branch_id : String
  pub ticket_id : String
  pub counter_id : String
  pub service_id : String
  pub reason : String
  pub occurred_at : ℕ
  pub return_to_queue : Bool

-- The default that the operations put in for a time that the caller left out.
abbrev pub or_now : ℕ → ℕ → ℕ
or_now t now = if t == 0 then now else t

abbrev pub null_if_empty : String → Option String
null_if_empty s = if s =? "" then none else Option.some s

abbrev pub text_or_empty : Option String → String
text_or_empty none = ""
text_or_empty (Option.some s) = s
