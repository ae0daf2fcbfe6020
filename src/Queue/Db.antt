-- ===== src/Queue/Db.antt =====
-- The tables of services/queue-service/migrations that the stores read and write: a row is a
-- record, a table the list of its rows, NULL is `none`. `B` is the type of an encoded payload.
use qms.Base.{ℕ, String, Bool, Option, List}
use qms.Base.Int.{ℤ}
use qms.Queue.Models.{Status}

pub record TicketRow : Type 0 where
  pub ticket_id : String
  pub request_id : String
  pub ticket_number : String
  pub tenant_id : String
  pub branch_id : String
  pub service_id : String
  pub area_id : Option String
  pub status : Status
  pub channel : String
  pub priority_class : String
  pub created_at : ℕ
  pub called_at : Option ℕ
  pub served_at : Option ℕ
  pub completed_at : Option ℕ
  pub counter_id : Option String
  pub returned : Bool
  pub phone_hash : Option String
  pub appointment_id : Option String

pub record ActionRequest : Type 0 where
  pub request_id : String
  pub action : String
  pub tenant_id : String
  pub branch_id : String
  pub service_id : Option String
  pub counter_id : Option String
  pub ticket_id : Option String

pub record SequenceRow : Type 0 where
  pub branch_id : String
  pub service_id : String
  pub next_number : ℕ

pub record RoutingRow : Type 0 where
  pub tenant_id : String
  pub branch_id : String
  pub service_id : String
  pub priority_streak : ℕ
  pub appointment_served : ℕ
  pub total_served : ℕ

pub record PolicyRow : Type 0 where
  pub tenant_id : String
  pub branch_id : String
  pub service_id : String
  pub no_show_grace_seconds : ℤ
  pub return_to_queue : Bool
  pub appointment_ratio_percent : ℤ
  pub appointment_window_size : ℤ
  pub appointment_boost_minutes : ℤ

pub record BranchRow : Type 0 where
  pub branch_id : String
  pub tenant_id : String
  pub name : String

pub record ServiceRow : Type 0 where
  pub service_id : String
  pub branch_id : String
  pub name : String
  pub code : String
  pub active : Bool
  pub sla_minutes : ℤ
  pub priority_policy : String
  pub hours_json : Option String

pub record CounterRow : Type 0 where
  pub counter_id : String
  pub branch_id : String
  pub name : String
  pub status : String

pub record CounterService : Type 0 where
  pub counter_id : String
  pub service_id : String

-- `scheduled_date` is `scheduled_at::date`, which the database computes.
pub record AppointmentRow : Type 0 where
  pub appointment_id : String
  pub tenant_id : String
  pub branch_id : String
  pub service_id : String
  pub scheduled_at : ℕ
  pub scheduled_date : ℕ
  pub status : String

pub record Holiday : Type 0 where
  pub holiday_id : String
  pub tenant_id : String
  pub branch_id : String
  pub date : ℕ
  pub name : String

pub record OutboxEvent (B : Type 0) : Type 0 where
  pub event_id : String
  pub tenant_id : String
  pub type : String
  pub payload : B
  pub created_at : ℕ

-- A row of `ticket_events`; rows from before the hash columns were added have no hash.
pub record EventRow (B : Type 0) : Type 0 where
  pub ticket_id : String
  pub ticket_seq : ℕ
  pub type : String
  pub payload : B
  pub created_at : ℕ
  pub prev_hash : Option String
  pub hash : Option String

pub record SessionRow : Type 0 where
  pub session_id : String
  pub user_id : String
  pub expires_at : ℕ

pub record UserRow : Type 0 where
  pub user_id : String
  pub tenant_id : String
  pub role_id : String
  pub email : String
  pub password_hash : String
  pub active : Bool
  pub created_at : ℕ

pub record RoleRow : Type 0 where
  pub role_id : String
  pub tenant_id : String
  pub name : String

-- A row of `user_idp_mappings`; its `created_at` is never read.
pub record MappingRow : Type 0 where
  pub mapping_id : String
  pub tenant_id : String
  pub provider : String
  pub subject : String
  pub user_id : String

-- A row of `user_branch_access` or `user_service_access`.
pub record AccessRow : Type 0 where
  pub user_id : String
  pub granted : String

pub record AreaRow : Type 0 where
  pub area_id : String
  pub branch_id : String
  pub name : String

-- `last_seen` is not modelled.
pub record DeviceRow : Type 0 where
  pub device_id : String
  pub tenant_id : String
  pub branch_id : String
  pub area_id : Option String
  pub type : String
  pub status : String

pub record DeviceConfigRow : Type 0 where
  pub config_id : String
  pub device_id : String
  pub version : ℤ
  pub payload : String

-- A row of `audit_logs`, less the time.
pub record AuditRow : Type 0 where
  pub audit_id : String
  pub tenant_id : String
  pub actor_user_id : Option String
  pub action_type : String
  pub target_type : String
  pub target_id : Option String
  pub ip : Option String
  pub user_agent : Option String

-- A row of `approval_requests`.
pub record ApprovalRow : Type 0 where
  pub approval_id : String
  pub tenant_id : String
  pub request_type : String
  pub payload : String
  pub status : String
  pub created_by : Option String
  pub created_at : ℕ
  pub approved_by : Option String
  pub approved_at : Option ℕ

-- A row of `tenant_approval_prefs`.
pub record ApprovalPrefRow : Type 0 where
  pub tenant_id : String
  pub approvals_enabled : Bool

pub record Db (B : Type 0) : Type 0 where
  pub tickets : List TicketRow
  pub action_requests : List ActionRequest
  pub sequences : List SequenceRow
  pub routing : List RoutingRow
  pub policies : List PolicyRow
  pub branches : List BranchRow
  pub services : List ServiceRow
  pub counters : List CounterRow
  pub counter_services : List CounterService
  pub appointments : List AppointmentRow
  pub holidays : List Holiday
  pub outbox_events : List (OutboxEvent B)
  pub ticket_events : List (EventRow B)
  pub sessions : List SessionRow
  pub users : List UserRow
  pub roles : List RoleRow
  pub user_idp_mappings : List MappingRow
  pub user_branch_access : List AccessRow
  pub user_service_access : List AccessRow
  pub areas : List AreaRow
  pub devices : List DeviceRow
  pub device_configs : List DeviceConfigRow
  pub audit_logs : List AuditRow
  pub approval_requests : List ApprovalRow
  pub tenant_approval_prefs : List ApprovalPrefRow
