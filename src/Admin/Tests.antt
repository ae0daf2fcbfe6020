-- ===== src/Admin/Tests.antt =====
-- The theorems at a request to delete the branch of the queue's fixture.
use qms.Base.{true, false, none, some, [], ◌∷◌, ◌≡◌, refl, find, update}
use qms.Queue.Payload.{Object}
use qms.Queue.Db.{ApprovalRow}
use qms.Queue.Tx.{State}
use qms.Queue.Tests.Fixture.{platform, db}
use qms.Auth.Run.{ended}
use qms.Admin.Store.{has_id, approve_pending}
use qms.Admin.Handlers.{HttpRequest, Response, Payloads, Tools, internal_error, approve}
use qms.Admin.Approvals.{approved_row, approve_once, approve_unnamed}

abbrev payloads : Payloads
payloads = record {
  branch = λ s. none;
  area = λ s. none;
  service = λ s. none;
  counter = λ s. none;
  policy = λ s. none;
  device = λ s. none;
  device_config = λ s. none;
  holiday = λ s. none;
  fields = λ s. some (λ name. "b");
  of_branch = λ b. none;
  of_branch_id = λ id. some id;
}

abbrev tools : Tools
tools = record { is_valid_uuid = λ s. true; fields = λ s. [] }

abbrev request : HttpRequest
request = record {
  method = "PUT";
  path = "/api/admin/approvals/a/approve";
  header = λ name. "";
  query = λ name. "";
  remote_addr = "";
  user_agent = "";
  branch_body = record {
    value = record { branch_id = ""; tenant_id = ""; name = "" };
    is_ok = false;
  };
  prefs_body = record { value = ("", false); is_ok = false };
}

abbrev deletion : ApprovalRow
deletion = record {
  approval_id = "a";
  tenant_id = "t";
  request_type = "branch.delete";
  payload = "b";
  status = "pending";
  created_by = some "u";
  created_at = 0;
  approved_by = none;
  approved_at = none;
}

abbrev at : ApprovalRow → State Object
at row = record { db = record db { approval_requests = row ∷ [] }; tick = 0 }

updated :
    (at (approved_row "v" 0 deletion)).db.approval_requests
    ≡ (approve_pending "a" "v" 0 (at deletion).db).1.approval_requests
unfolding approve_pending update
updated = refl

approve_once_example :
    (e : Response) × (s' : State Object) × (approve platform payloads tools request none "a"
        (at (approved_row "v" 0 deletion))
      ≡ (ended e, s'))
    × (s'.db ≡ (at (approved_row "v" 0 deletion)).db)
approve_once_example =
    approve_once platform payloads tools request none "a" "v" 0 (at deletion).db
      (at (approved_row "v" 0 deletion)) updated

is_found : find (has_id "a") (at deletion).db.approval_requests ≡ some deletion
unfolding find
is_found = refl

approve_unnamed_example :
    (s' : State Object) × (approve platform payloads tools request none "a" (at deletion)
      ≡ (ended (internal_error platform payloads tools request "apply approval failed"), s'))
    × (s'.db ≡ (approve_pending "a" "" (platform.clock 0) (at deletion).db).1)
    × (find (has_id "a") s'.db.approval_requests
        ≡ some (approved_row "" (platform.clock 0) deletion))
approve_unnamed_example =
    approve_unnamed platform payloads tools request none "a" (λ n. refl) (at deletion) deletion
      is_found refl refl
