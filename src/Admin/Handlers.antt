-- ===== src/Admin/Handlers.antt =====
-- services/admin-service/internal/httpapi: auth.go, and of handler.go the permissions, the branches
-- and the approvals. A request has passed the multiplexer with its path.
use qms.Base.{
  ℕ, String, Bool, true, false, not, ◌||◌, Option, none, some, List, [], ◌∷◌, ◌=?◌, if◌then◌else◌,
}
use qms.Base.Int.{ℤ}
use qms.Queue.Models
use qms.Queue.Db.{BranchRow, AreaRow, PolicyRow, Holiday}
use qms.Queue.Accounts.{Session}
use qms.Queue.Tx.{Platform}
use qms.Http.Text.{split_slash, trim_slashes, trim_prefix}
use qms.Http.Messages.{Decoded}
use qms.Auth.Run.{Run, Result, value, pure, stop, stop_if, ◌>>=◌, ◌>>◌, or_end, outcome_of}
use qms.Admin.Rows.{
  Error, branch_has_services, approval_not_found, approval_not_pending, session_not_found, other,
  Counter, Service, Device, ApprovalRequest,
}
use qms.Admin.Store.{
  create_branch, update_branch, delete_branch, create_area, create_service, update_service,
  create_counter, map_counter_service, upsert_service_policy, register_device, create_device_config,
  create_holiday, insert_audit, create_approval, approve_request, get_approval, approvals_enabled,
  set_approval_prefs, get_session,
}

pub record HttpRequest : Type 0 where
  pub method : String
  pub path : String
  pub header : String → String
  pub query : String → String
  pub remote_addr : String
  pub user_agent : String
  pub branch_body : Decoded BranchRow
  pub prefs_body : Decoded (String × Bool)

pub data Payload : Type 0 where
  no_payload : Payload
  error : String → String → String → Payload
  branch : BranchRow → Payload
  prefs : String → Bool → Payload
  requested : ApprovalRequest → Payload

pub record Response : Type 0 where
  pub status : ℕ
  pub payload : Payload

-- What json.Unmarshal reads a stored payload as, `none` for an error, and json.Marshal.
pub record Payloads : Type 0 where
  pub branch : String → Option BranchRow
  pub area : String → Option AreaRow
  pub service : String → Option Service
  pub counter : String → Option Counter
  pub policy : String → Option PolicyRow
  pub device : String → Option Device
  pub device_config : String → Option (String × ℤ × String)
  pub holiday : String → Option Holiday
  pub fields : String → Option (String → String)
  pub of_branch : BranchRow → Option String
  pub of_branch_id : String → Option String

-- The UUID parser and `strings.Fields`.
pub record Tools : Type 0 where
  pub is_valid_uuid : String → Bool
  pub fields : String → List String

pub data Permission : Type 0 where
  config_read config_write audit_read roles_manage approval_manage : Permission

abbrev pub status_only : ℕ → Response
status_only code = record { status = code; payload = no_payload }

abbrev pub supervises : Permission → Bool
supervises roles_manage = false
supervises _ = true

unfoldable pub has_permission : String → Permission → Bool
has_permission role p =
    if role =? "admin" then true else if role =? "supervisor" then supervises p else false

-- Exactly two parts.
abbrev pub two_parts : List String → Option (String × String)
two_parts (a ∷ b ∷ []) = some (a, b)
two_parts _ = none

module _ {B : Type 0} (P : Platform B) (J : Payloads) (T : Tools) (r : HttpRequest) where
  abbrev pub write_error : ℕ → String → String → Response
  write_error code name message = record {
    status = code;
    payload = error (P.trim_space (r.header "X-Request-ID")) name message;
  }

  abbrev pub internal_error : String → Response
  internal_error = write_error 500 "internal_error"

  abbrev pub internal : {A : Type 0} → Run B Error A → Run B Response A
  internal = or_end (λ _. internal_error "internal server error")

  unfoldable pub is_public_endpoint : Bool
  is_public_endpoint =
      r.path =? "/healthz"
      || (r.path =? "/metrics"
          || (r.path =? "/api/devices/config"
              || (r.path =? "/api/devices/status" || r.method =? "OPTIONS")))

  unfoldable pub bearer_token : String → String
  bearer_token header = if header =? "" then "" else elim (two_parts (T.fields header)) [
    | none ↦ ""
    | some (a, b) ↦ if P.to_lower a =? "bearer" then b else ""
  ]

  unfoldable pub session_id_from_request : String
  session_id_from_request =
      let token = bearer_token (r.header "Authorization") in
      if token =? "" then P.trim_space (r.header "X-Session-ID") else token

  abbrev pub session_error : Error → Response
  session_error session_not_found = write_error 401 "unauthorized" "invalid session"
  session_error _ = internal_error "internal server error"

  -- `AuthMiddleware`: the session in the context of the next handler.
  unfoldable pub authenticate : Run B Response (Option Session)
  authenticate = if is_public_endpoint then pure none else do
    stop_if (session_id_from_request =? "") (write_error 401 "unauthorized" "missing session")
    session ← or_end session_error (get_session P session_id_from_request)
    pure (some session)

  abbrev pub missing_session : Response
  missing_session = write_error 401 "unauthorized" "missing session"

  unfoldable pub require_tenant : Option Session → String → Run B Response (Unit {0})
  require_tenant none tenant_id = stop missing_session
  require_tenant (some session) tenant_id =
      if tenant_id =? ""
      then stop (write_error 400 "invalid_request" "tenant_id is required")
      else if session.tenant_id =? tenant_id
      then pure tt
      else stop (write_error 403 "access_denied" "tenant access denied")

  abbrev pub role_of : Session → String
  role_of session =
      let role = P.to_lower (P.trim_space session.role) in if role =? "" then "agent" else role

  unfoldable pub require_permission : Option Session → Permission → Run B Response (Unit {0})
  require_permission none p = stop missing_session
  require_permission (some session) p =
      stop_if (not (has_permission (role_of session) p))
        (write_error 403 "access_denied" "insufficient role")

  abbrev pub auth_user_id : Option Session → String
  auth_user_id none = P.trim_space (r.header "X-User-ID")
  auth_user_id (some session) = P.trim_space session.user_id

  -- The tenant, or else that of the session.
  abbrev pub tenant_or : Option Session → String → String
  tenant_or none tenant_id = tenant_id
  tenant_or (some session) tenant_id = if tenant_id =? "" then session.tenant_id else tenant_id

  -- The error of `InsertAudit` is passed over.
  unfoldable pub record_audit :
      Option Session → String → String → String → String → Run B Response (Unit {0})
  record_audit session tenant_id action_type target_type target_id =
      let tenant = tenant_or session tenant_id in
      if T.is_valid_uuid tenant
      then (outcome_of (
            insert_audit P tenant (auth_user_id session) action_type target_type target_id
              r.remote_addr r.user_agent)
          >> pure tt)
      else pure tt

  -- The request is stored, and the handler returns.
  abbrev pub store_request :
      Option Session → String → String → Option String → Run B Response (Unit {0})
  store_request session tenant request_type none = stop (internal_error "approval marshal failed")
  store_request session tenant request_type (some raw) = do
    created ←
        or_end (λ _. internal_error "approval create failed")
          (create_approval P tenant request_type raw (auth_user_id session))
    stop (record { status = 202; payload = requested created })

  abbrev pub if_enabled : Run B Response (Unit {0}) → Result Error Bool → Run B Response (Unit {0})
  if_enabled m (value true) = m
  if_enabled m _ = pure tt

  -- It goes on where no approval is needed: also where that is not known.
  unfoldable pub maybe_create_approval :
      Option Session → String → String → Option String → Run B Response (Unit {0})
  maybe_create_approval session tenant_id request_type raw =
      let tenant = tenant_or session tenant_id in
      if T.is_valid_uuid tenant
      then (outcome_of (approvals_enabled P tenant)
          >>= if_enabled (store_request session tenant request_type raw))
      else pure tt

  abbrev pub with_payload :
      {A : Type 0} → Option A → (A → Run B Error (Unit {0})) → Run B Error (Unit {0})
  with_payload none f = stop (other Models.failure)
  with_payload (some a) f = f a

  -- The `switch` of `applyApproval`.
  unfoldable pub apply_request : ApprovalRequest → Run B Error (Unit {0})
  apply_request a =
      if a.request_type =? "branch.create"
      then with_payload (J.branch a.payload) (create_branch P)
      else if a.request_type =? "branch.update"
      then with_payload (J.branch a.payload) (update_branch P)
      else if a.request_type =? "branch.delete"
      then with_payload (J.fields a.payload)
          (λ field. delete_branch P a.tenant_id (field "branch_id"))
      else if a.request_type =? "area.create"
      then with_payload (J.area a.payload) (create_area P)
      else if a.request_type =? "service.create"
      then with_payload (J.service a.payload) (create_service P)
      else if a.request_type =? "service.update"
      then with_payload (J.service a.payload) (update_service P)
      else if a.request_type =? "counter.create"
      then with_payload (J.counter a.payload) (create_counter P)
      else if a.request_type =? "counter.map_service"
      then with_payload (J.fields a.payload)
          (λ field. map_counter_service P (field "counter_id") (field "service_id"))
      else if a.request_type =? "policy.update"
      then with_payload (J.policy a.payload) (upsert_service_policy P)
      else if a.request_type =? "device.register"
      then with_payload (J.device a.payload) (register_device P)
      else if a.request_type =? "device.config"
      then with_payload (J.device_config a.payload)
          (λ (device_id, version, payload). create_device_config P device_id version payload)
      else if a.request_type =? "holiday.create"
      then with_payload (J.holiday a.payload) (create_holiday P)
      else pure tt

  abbrev pub apply_found : Option ApprovalRequest → Run B Error (Unit {0})
  apply_found none = pure tt
  apply_found (some a) = apply_request a

  unfoldable pub apply_approval : String → Run B Error (Unit {0})
  unfolding apply_request
  apply_approval id = get_approval P id >>= apply_found

  abbrev pub approval_error : Error → Response
  approval_error approval_not_found = write_error 404 "not_found" "approval request not found"
  approval_error approval_not_pending =
      write_error 409 "already_processed" "approval request is not pending"
  approval_error _ = internal_error "internal server error"

  -- What follows the checks of the path and the method.
  unfoldable pub approve : Option Session → String → Run B Response Response
  unfolding apply_approval record_audit
  approve session id = do
    or_end approval_error (approve_request P id (P.trim_space (r.header "X-User-ID")))
    or_end (λ _. internal_error "apply approval failed") (apply_approval id)
    record_audit session "" "approval.approve" "approval" id
    pure (status_only 204)

  abbrev pub approval_of : List String → Option String
  approval_of (id ∷ action ∷ []) = if action =? "approve" then some id else none
  approval_of _ = none

  abbrev pub approve_at : Option Session → Option String → Run B Response Response
  approve_at session none = stop (status_only 404)
  approve_at session (some id) = do
    stop_if (not (T.is_valid_uuid id))
        (write_error 400 "invalid_request" "approval_id must be a UUID")
    stop_if (not (r.method =? "PUT")) (status_only 405)
    approve session id

  unfoldable pub handle_approval_action : Option Session → Run B Response Response
  unfolding approve
  handle_approval_action session = do
    require_permission session approval_manage
    approve_at session
        (approval_of (split_slash (trim_slashes (trim_prefix r.path "/api/admin/approvals/"))))

  unfoldable pub handle_approval_prefs : Option Session → Run B Response Response
  unfolding record_audit
  handle_approval_prefs session =
      if r.method =? "GET"
      then (do
        require_permission session config_read
        let tenant_id = P.trim_space (r.query "tenant_id")
        stop_if (not (T.is_valid_uuid tenant_id))
            (write_error 400 "invalid_request" "tenant_id is required")
        require_tenant session tenant_id
        enabled ← internal (approvals_enabled P tenant_id)
        pure (record { status = 200; payload = prefs tenant_id enabled }))
      else if r.method =? "POST"
      then (do
        require_permission session config_write
        stop_if (not r.prefs_body.is_ok) (write_error 400 "invalid_json" "invalid JSON payload")
        let tenant_id = r.prefs_body.value.0
        let enabled = r.prefs_body.value.1
        require_tenant session (P.trim_space tenant_id)
        stop_if (not (T.is_valid_uuid tenant_id))
            (write_error 400 "invalid_request" "tenant_id is required")
        internal (set_approval_prefs P tenant_id enabled)
        record_audit session tenant_id "approval.prefs_update" "tenant" tenant_id
        pure (record { status = 200; payload = prefs tenant_id enabled }))
      else stop (status_only 405)

  unfoldable pub put_branch : Option Session → String → Run B Response Response
  unfolding maybe_create_approval record_audit
  put_branch session id = do
    stop_if (not r.branch_body.is_ok) (write_error 400 "invalid_json" "invalid JSON payload")
    require_tenant session (P.trim_space r.branch_body.value.tenant_id)
    stop_if (not (T.is_valid_uuid r.branch_body.value.tenant_id) || r.branch_body.value.name =? "")
        (write_error 400 "invalid_request" "tenant_id and name are required")
    let row : BranchRow = record r.branch_body.value { branch_id = id }
    maybe_create_approval session row.tenant_id "branch.update" (J.of_branch row)
    internal (update_branch P row)
    record_audit session row.tenant_id "branch.update" "branch" row.branch_id
    pure (record { status = 200; payload = branch row })

  abbrev pub delete_error : Error → Response
  delete_error branch_has_services =
      write_error 409 "branch_has_services" "branch has active services"
  delete_error _ = internal_error "internal server error"

  unfoldable pub remove_branch : Option Session → String → Run B Response Response
  unfolding maybe_create_approval record_audit
  remove_branch session id = do
    let tenant_id = P.trim_space (r.query "tenant_id")
    stop_if (not (T.is_valid_uuid tenant_id))
        (write_error 400 "invalid_request" "tenant_id is required")
    require_tenant session tenant_id
    maybe_create_approval session tenant_id "branch.delete" (J.of_branch_id id)
    or_end delete_error (delete_branch P tenant_id id)
    record_audit session tenant_id "branch.delete" "branch" id
    pure (status_only 204)

  unfoldable pub handle_branch : Option Session → Run B Response Response
  unfolding put_branch remove_branch
  handle_branch session = do
    require_permission session config_write
    let id = trim_prefix r.path "/api/admin/branches/"
    stop_if (not (T.is_valid_uuid id))
        (write_error 400 "invalid_request" "branch_id must be a UUID")
    if r.method =? "PUT"
        then put_branch session id
        else if r.method =? "DELETE"
        then remove_branch session id
        else stop (status_only 405)
