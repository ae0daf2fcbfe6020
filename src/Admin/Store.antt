-- ===== src/Admin/Store.antt =====
-- services/admin-service/internal/store/postgres/store.go: the changes of the configuration that can
-- wait for an approval, and the approvals.
use qms.Base.{
  ℕ, String, Bool, true, false, not, ◌&&◌, ◌||◌, Option, none, some, [], ◌∷◌, ◌++◌, ◌=?◌,
  if◌then◌else◌, maybe, find, any, select, update,
}
use qms.Base.Int.{ℤ}
use qms.Queue.Models
use qms.Queue.Db.{
  Db, BranchRow, ServiceRow, TicketRow, CounterRow, AccessRow, PolicyRow, Holiday, AreaRow,
  DeviceRow, AuditRow, ApprovalRow, ApprovalPrefRow,
}
use qms.Queue.Accounts
use qms.Queue.Accounts.{find_session}
use qms.Queue.Tx
use qms.Queue.Tx.{Platform}
use qms.Auth.Run.{Run, pure, stop, or_stop, stop_if, ◌>>=◌, ◌>>◌, ask}
use qms.Admin.Rows.{
  Error, branch_has_services, approval_not_found, approval_not_pending, session_not_found, other,
  Counter, Service, Device, ApprovalRequest, null_if_empty, insert, insert_branch, insert_area,
  insert_service, insert_counter, insert_counter_service, upsert_policy, upsert_device,
  insert_device_config, upsert_holiday, insert_approval,
}

-- The rows that refer to a branch.
abbrev pub is_used : {B : Type 0} → String → Db B → Bool
is_used id d =
    any (λ (r : TicketRow). r.branch_id =? id) d.tickets
    || (any (λ (v : ServiceRow). v.branch_id =? id) d.services
        || (any (λ (a : AreaRow). a.branch_id =? id) d.areas
            || (any (λ (c : CounterRow). c.branch_id =? id) d.counters
                || (any (λ (v : DeviceRow). v.branch_id =? id) d.devices
                    || any (λ (a : AccessRow). a.granted =? id) d.user_branch_access))))

abbrev pub is_pending : String → ApprovalRow → Bool
is_pending id a = a.approval_id =? id && a.status =? "pending"

abbrev pub has_id : String → ApprovalRow → Bool
has_id id a = a.approval_id =? id

-- `Scan` into a `models.ApprovalRequest`, whose fields are texts: a NULL is an error.
abbrev pub scan_approval : ApprovalRow → Option ApprovalRequest
scan_approval a = elim a.created_by [
  | none ↦ none
  | some created_by ↦ elim a.approved_by [
    | none ↦ none
    | some approved_by ↦ some (record {
      approval_id = a.approval_id;
      tenant_id = a.tenant_id;
      request_type = a.request_type;
      payload = a.payload;
      status = a.status;
      created_by = created_by;
      approved_by = approved_by;
    })
  ]
]

-- A row, no row, or an error.
abbrev pub scanned : Option ApprovalRow → Option (Option ApprovalRequest)
scanned none = some none
scanned (some a) = elim (scan_approval a) [ none ↦ none | some r ↦ some (some r) ]

-- The `UPDATE`, with whether it has changed a row.
unfoldable pub approve_pending : {B : Type 0} → String → String → ℕ → Db B → Bool × Db B
approve_pending id approver now d = (
  any (is_pending id) d.approval_requests,
  record d {
    approval_requests =
        update (is_pending id)
          (λ (a : ApprovalRow). record a {
            status = "approved";
            approved_by = null_if_empty approver;
            approved_at = some now;
          })
          d.approval_requests;
  },
)

module _ {B : Type 0} (P : Platform B) where
  -- An identifier that the caller may have given.
  abbrev pub id_or_new : String → Run B Error String
  id_or_new id = if id =? "" then ask other (Tx.new_uuid P) else pure id

  abbrev pub run_insert : (Db B → Option (Unit {0} × Db B)) → Run B Error (Unit {0})
  run_insert f = ask other (Tx.statement P (λ t d. f d))

  unfoldable pub create_branch : BranchRow → Run B Error (Unit {0})
  create_branch branch = do
    id ← id_or_new branch.branch_id
    run_insert (insert_branch (record branch { branch_id = id }))

  unfoldable pub update_branch : BranchRow → Run B Error (Unit {0})
  update_branch branch = ask other (
      Tx.exec P λ d. record d {
        branches =
            update
              (λ (b : BranchRow).
                b.branch_id =? branch.branch_id && b.tenant_id =? branch.tenant_id)
              (λ (b : BranchRow). record b { name = branch.name }) d.branches;
      })

  -- The `DELETE` fails on a branch that other rows refer to.
  unfoldable pub delete_branch : String → String → Run B Error (Unit {0})
  delete_branch tenant_id branch_id = do
    busy ←
        ask other (
          Tx.query P λ d. any (λ (v : ServiceRow). v.branch_id =? branch_id && v.active) d.services)
    stop_if busy branch_has_services
    run_insert λ d.
        let gone = λ (b : BranchRow). b.branch_id =? branch_id && b.tenant_id =? tenant_id in
        if any gone d.branches && is_used branch_id d
        then none
        else some (tt, record d { branches = select (λ (b : BranchRow). not (gone b)) d.branches })

  unfoldable pub create_area : AreaRow → Run B Error (Unit {0})
  create_area area = do
    id ← id_or_new area.area_id
    run_insert (insert_area (record area { area_id = id }))

  abbrev pub service_row : String → Service → ServiceRow
  service_row id v = record {
    service_id = id;
    branch_id = v.branch_id;
    name = v.name;
    code = v.code;
    active = v.active;
    sla_minutes = v.sla_minutes;
    priority_policy = v.priority_policy;
    hours_json = null_if_empty v.hours_json;
  }

  unfoldable pub create_service : Service → Run B Error (Unit {0})
  create_service service = do
    id ← id_or_new service.service_id
    run_insert (insert_service (service_row id service))

  unfoldable pub update_service : Service → Run B Error (Unit {0})
  update_service service = ask other (
      Tx.exec P λ d. record d {
        services =
            update
              (λ (v : ServiceRow).
                v.service_id =? service.service_id && v.branch_id =? service.branch_id)
              (λ _. service_row service.service_id service) d.services;
      })

  unfoldable pub create_counter : Counter → Run B Error (Unit {0})
  create_counter counter = do
    id ← id_or_new counter.counter_id
    run_insert (
        insert_counter (null_if_empty counter.area_id) (record {
          counter_id = id;
          branch_id = counter.branch_id;
          name = counter.name;
          status = counter.status;
        }))

  unfoldable pub map_counter_service : String → String → Run B Error (Unit {0})
  map_counter_service counter_id service_id =
      run_insert
        (insert_counter_service (record { counter_id = counter_id; service_id = service_id }))

  unfoldable pub upsert_service_policy : PolicyRow → Run B Error (Unit {0})
  upsert_service_policy policy = ask other (Tx.exec P (upsert_policy policy))

  unfoldable pub register_device : Device → Run B Error (Unit {0})
  register_device device = do
    id ← id_or_new device.device_id
    run_insert (
        upsert_device (record {
          device_id = id;
          tenant_id = device.tenant_id;
          branch_id = device.branch_id;
          area_id = null_if_empty device.area_id;
          type = device.type;
          status = device.status;
        }))

  unfoldable pub create_device_config : String → ℤ → String → Run B Error (Unit {0})
  create_device_config device_id version payload = do
    id ← ask other (Tx.new_uuid P)
    run_insert (
        insert_device_config
          (record { config_id = id; device_id = device_id; version = version; payload = payload }))

  unfoldable pub create_holiday : Holiday → Run B Error (Unit {0})
  create_holiday holiday = do
    id ← id_or_new holiday.holiday_id
    run_insert (upsert_holiday (record holiday { holiday_id = id }))

  unfoldable pub insert_audit :
      String → String → String → String → String → String → String → Run B Error (Unit {0})
  insert_audit tenant_id actor action_type target_type target_id ip user_agent = do
    id ← ask other (Tx.new_uuid P)
    run_insert λ d. insert (any (λ (a : AuditRow). a.audit_id =? id) d.audit_logs) true (record d {
      audit_logs =
          d.audit_logs
          ++ record {
            audit_id = id;
            tenant_id = tenant_id;
            actor_user_id = null_if_empty actor;
            action_type = action_type;
            target_type = target_type;
            target_id = null_if_empty target_id;
            ip = null_if_empty ip;
            user_agent = null_if_empty user_agent;
          }
            ∷ [];
    })

  unfoldable pub create_approval : String → String → String → String → Run B Error ApprovalRequest
  create_approval tenant_id request_type payload created_by = do
    id ← ask other (Tx.new_uuid P)
    ask other (
        Tx.statement P λ t. insert_approval (record {
          approval_id = id;
          tenant_id = tenant_id;
          request_type = request_type;
          payload = payload;
          status = "pending";
          created_by = null_if_empty created_by;
          created_at = P.clock t;
          approved_by = none;
          approved_at = none;
        }))
    pure (record {
      approval_id = id;
      tenant_id = tenant_id;
      request_type = request_type;
      payload = payload;
      status = "";
      created_by = created_by;
      approved_by = "";
    })

  abbrev pub refuse_approval : Bool → Run B Error (Unit {0})
  refuse_approval known = stop (if known then approval_not_pending else approval_not_found)

  abbrev pub explain_approval : String → Bool → Run B Error (Unit {0})
  explain_approval id true = pure tt
  explain_approval id false = do
    known ← ask other (Tx.query P (λ d. any (has_id id) d.approval_requests))
    refuse_approval known

  unfoldable pub approve_request : String → String → Run B Error (Unit {0})
  unfolding approve_pending
  approve_request id approver = do
    changed ← ask other (Tx.statement P (λ t d. some (approve_pending id approver (P.clock t) d)))
    explain_approval id changed

  unfoldable pub get_approval : String → Run B Error (Option ApprovalRequest)
  get_approval id = do
    found ← ask other (Tx.query P (λ d. find (has_id id) d.approval_requests))
    or_stop (scanned found) (other Models.failure)

  unfoldable pub approvals_enabled : String → Run B Error Bool
  approvals_enabled tenant_id = do
    found ← ask other (
        Tx.query P
          λ d. find (λ (p : ApprovalPrefRow). p.tenant_id =? tenant_id) d.tenant_approval_prefs)
    pure (maybe found false (λ (p : ApprovalPrefRow). p.approvals_enabled))

  unfoldable pub set_approval_prefs : String → Bool → Run B Error (Unit {0})
  set_approval_prefs tenant_id enabled = ask other (
      Tx.exec P λ d.
        let own = λ (p : ApprovalPrefRow). p.tenant_id =? tenant_id in
        let row : ApprovalPrefRow = record { tenant_id = tenant_id; approvals_enabled = enabled } in
        if any own d.tenant_approval_prefs
        then record d { tenant_approval_prefs = update own (λ _. row) d.tenant_approval_prefs }
        else record d { tenant_approval_prefs = d.tenant_approval_prefs ++ row ∷ [] })

  unfoldable pub get_session : String → Run B Error Accounts.Session
  get_session session_id = do
    found ← ask other (Tx.statement P (λ t d. some (find_session session_id (P.clock t) d, d)))
    or_stop found session_not_found
