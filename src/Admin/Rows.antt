-- ===== src/Admin/Rows.antt =====
-- services/admin-service/internal: the models of models/models.go that approvals carry, the errors
-- of store/errors.go, and the statements of store/postgres/store.go that insert under constraints.
use qms.Base.{
  String, Bool, true, false, ◌&&◌, Option, none, some, [], ◌∷◌, ◌++◌, ◌=?◌, ◌==◌, if◌then◌else◌,
  any, update,
}
use qms.Base.Int.{ℤ, pos, negsuc}
use qms.Queue.Models
use qms.Queue.Db.{
  Db, BranchRow, ServiceRow, CounterRow, CounterService, PolicyRow, Holiday, AreaRow, DeviceRow,
  DeviceConfigRow, ApprovalRow,
}

pub data Error : Type 0 where
  branch_has_services approval_not_found approval_not_pending session_not_found : Error
  other : Models.Error → Error

pub record Counter : Type 0 where
  pub counter_id : String
  pub branch_id : String
  pub area_id : String
  pub name : String
  pub status : String

pub record Service : Type 0 where
  pub service_id : String
  pub branch_id : String
  pub name : String
  pub code : String
  pub sla_minutes : ℤ
  pub active : Bool
  pub priority_policy : String
  pub hours_json : String

pub record Device : Type 0 where
  pub device_id : String
  pub tenant_id : String
  pub branch_id : String
  pub area_id : String
  pub type : String
  pub status : String

pub record ApprovalRequest : Type 0 where
  pub approval_id : String
  pub tenant_id : String
  pub request_type : String
  pub payload : String
  pub status : String
  pub created_by : String
  pub approved_by : String

abbrev pub null_if_empty : String → Option String
null_if_empty value = if value =? "" then none else some value

abbrev pub is_policy : PolicyRow → PolicyRow → Bool
is_policy row p =
    p.tenant_id =? row.tenant_id && (p.branch_id =? row.branch_id && p.service_id =? row.service_id)

abbrev pub same_version : ℤ → ℤ → Bool
same_version (pos a) (pos b) = a == b
same_version (negsuc a) (negsuc b) = a == b
same_version _ _ = false

abbrev pub on_date : Holiday → Holiday → Bool
on_date row h = h.tenant_id =? row.tenant_id && (h.branch_id =? row.branch_id && h.date == row.date)

module _ {B : Type 0} where
  abbrev pub is_branch : String → Db B → Bool
  is_branch id d = any (λ (b : BranchRow). b.branch_id =? id) d.branches

  -- A reference to `areas` that may be NULL.
  abbrev pub is_area : Option String → Db B → Bool
  is_area none d = true
  is_area (some id) d = any (λ (a : AreaRow). a.area_id =? id) d.areas

  -- The rows of a table with one more, if its key is not taken and what it refers to is there.
  abbrev pub insert : Bool → Bool → Db B → Option (Unit {0} × Db B)
  insert taken refers after = if taken then none else if refers then some (tt, after) else none

  unfoldable pub insert_branch : BranchRow → Db B → Option (Unit {0} × Db B)
  insert_branch row d =
      insert (is_branch row.branch_id d) true (record d { branches = d.branches ++ row ∷ [] })

  unfoldable pub insert_area : AreaRow → Db B → Option (Unit {0} × Db B)
  insert_area row d =
      insert (any (λ (a : AreaRow). a.area_id =? row.area_id) d.areas) (is_branch row.branch_id d)
        (record d { areas = d.areas ++ row ∷ [] })

  unfoldable pub insert_service : ServiceRow → Db B → Option (Unit {0} × Db B)
  insert_service row d =
      insert (any (λ (v : ServiceRow). v.service_id =? row.service_id) d.services)
        (is_branch row.branch_id d) (record d { services = d.services ++ row ∷ [] })

  -- `counters.area_id` is checked, and not kept.
  unfoldable pub insert_counter : Option String → CounterRow → Db B → Option (Unit {0} × Db B)
  insert_counter area row d =
      insert (any (λ (c : CounterRow). c.counter_id =? row.counter_id) d.counters)
        (is_branch row.branch_id d && is_area area d)
        (record d { counters = d.counters ++ row ∷ [] })

  -- `ON CONFLICT DO NOTHING`
  unfoldable pub insert_counter_service : CounterService → Db B → Option (Unit {0} × Db B)
  insert_counter_service row d =
      if any
        (λ (m : CounterService). m.counter_id =? row.counter_id && m.service_id =? row.service_id)
        d.counter_services
      then some (tt, d)
      else insert false
          (any (λ (c : CounterRow). c.counter_id =? row.counter_id) d.counters
            && any (λ (v : ServiceRow). v.service_id =? row.service_id) d.services)
          (record d { counter_services = d.counter_services ++ row ∷ [] })

  unfoldable pub upsert_policy : PolicyRow → Db B → Db B
  upsert_policy row d =
      if any (is_policy row) d.policies
      then record d { policies = update (is_policy row) (λ _. row) d.policies }
      else record d { policies = d.policies ++ row ∷ [] }

  -- A device that is there keeps its tenant and its type.
  unfoldable pub upsert_device : DeviceRow → Db B → Option (Unit {0} × Db B)
  upsert_device row d =
      let same = λ (v : DeviceRow). v.device_id =? row.device_id in
      insert false (is_branch row.branch_id d && is_area row.area_id d) (
        if any same d.devices
        then record d {
          devices =
              update same
                (λ (v : DeviceRow). record v {
                  branch_id = row.branch_id;
                  area_id = row.area_id;
                  status = row.status;
                })
                d.devices;
        }
        else record d { devices = d.devices ++ row ∷ [] })

  unfoldable pub insert_device_config : DeviceConfigRow → Db B → Option (Unit {0} × Db B)
  insert_device_config row d =
      if any
        (λ (c : DeviceConfigRow).
          c.device_id =? row.device_id && same_version c.version row.version)
        d.device_configs
      then some (tt, d)
      else insert (any (λ (c : DeviceConfigRow). c.config_id =? row.config_id) d.device_configs)
          true (record d { device_configs = d.device_configs ++ row ∷ [] })

  unfoldable pub upsert_holiday : Holiday → Db B → Option (Unit {0} × Db B)
  upsert_holiday row d =
      if any (on_date row) d.holidays
      then some (
        tt,
        record d {
          holidays =
              update (on_date row) (λ (h : Holiday). record h { name = row.name }) d.holidays;
        },
      )
      else insert (any (λ (h : Holiday). h.holiday_id =? row.holiday_id) d.holidays) true
          (record d { holidays = d.holidays ++ row ∷ [] })

  unfoldable pub insert_approval : ApprovalRow → Db B → Option (Unit {0} × Db B)
  insert_approval row d =
      insert (any (λ (a : ApprovalRow). a.approval_id =? row.approval_id) d.approval_requests) true
        (record d { approval_requests = d.approval_requests ++ row ∷ [] })
