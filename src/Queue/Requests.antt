-- ===== src/Queue/Requests.antt =====
-- services/queue-service/internal/store/postgres/store.go: the record of the requests that were
-- answered, by which an operation knows a repeated one.
use qms.Base.{String, Bool, ◌++◌, [], ◌∷◌, ◌=?◌, if◌then◌else◌, any}
use qms.Queue.Models.{Ticket, Error, null_if_empty}
use qms.Queue.Db.{Db, ActionRequest}
use qms.Queue.Rows.{not_found, found_empty, found, find_action_request}
use qms.Queue.Tx.{Platform, Tx, Answer, answered, refused, pure, ◌>>=◌, exec}

-- `ON CONFLICT (request_id) DO NOTHING`
unfoldable pub add_action_request : {B : Type 0} → ActionRequest → Db B → Db B
add_action_request r d =
    if any (λ (x : ActionRequest). x.request_id =? r.request_id) d.action_requests
    then d
    else record d { action_requests = d.action_requests ++ (r ∷ []) }

module _ {B : Type 0} (P : Platform B) where
  unfoldable pub insert_action_request :
      String → String → String → String → String → String → String → Tx B (Unit {0})
  insert_action_request action request_id tenant_id branch_id service_id counter_id ticket_id =
      exec P (
        add_action_request (record {
          request_id = request_id;
          action = action;
          tenant_id = tenant_id;
          branch_id = branch_id;
          service_id = null_if_empty service_id;
          counter_id = null_if_empty counter_id;
          ticket_id = null_if_empty ticket_id;
        }))

  -- The beginning of every operation on a ticket: a repeated request gets the stored answer, with
  -- `false` for "not applied", and another goes on with `first`.
  unfoldable pub unless_repeated :
      String → String → Error → Tx B (Answer (Ticket × Bool)) → Tx B (Answer (Ticket × Bool))
  unless_repeated action request_id empty_error first = do
    stored ← find_action_request P action request_id
    elim stored [
      | not_found ↦ first
      | found_empty ↦ pure (refused empty_error)
      | found t ↦ pure (answered (t, Bool.false))
    ]
