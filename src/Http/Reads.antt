-- ===== src/Http/Reads.antt =====
-- services/queue-service/internal/httpapi/handler.go: the handlers that only read.
use qms.Base.{
  ℕ, String, Bool, false, not, ◌&&◌, ◌=?◌, Option, none, some, List, [], ◌∷◌, if◌then◌else◌, maybe,
}
use qms.Base.Int.{ℤ, pos, is_positive}
use qms.Queue.Tx.{Platform}
use qms.Queue.Reads.{
  get_ticket, list_queue, snapshot_tickets, get_active_ticket, list_outbox_events,
  list_ticket_events, list_counters, list_services,
}
use qms.Http.Messages.{
  HttpRequest, Parsers, Response, ticket, tickets, outbox, log, counters, services, status_only,
  ok_with, write_error,
}
use qms.Http.Web.{Web, pure, respond, ask, ◌>>=◌, ◌>>◌, stop_if, or_map_error}
use qms.Http.Auth.{
  AuthInfo, is_empty, require_tenant, require_branch_access, require_service_access,
}
use qms.Http.Decode.{invalid_request, require_method, query_value, some_empty, some_not_uuid}

module _ {B : Type 0} (P : Platform B) (T : Parsers) (r : HttpRequest) where
  -- Query values that must be there and be UUIDs.
  require_ids : List String → String → String → Web B (Unit {0})
  require_ids ids required malformed = do
    stop_if (some_empty ids) (invalid_request "" required)
    stop_if (some_not_uuid T ids) (invalid_request "" malformed)

  unfoldable pub handle_ticket_snapshot : Option AuthInfo → Web B (Response B)
  unfolding require_ids
  handle_ticket_snapshot info = do
    require_method r "GET"
    let tenant_id : String = query_value P T r "tenant_id"
    let branch_id : String = query_value P T r "branch_id"
    let service_id : String = query_value P T r "service_id"
    require_ids (tenant_id ∷ branch_id ∷ service_id ∷ [])
        "tenant_id, branch_id, and service_id are required"
        "tenant_id, branch_id, and service_id must be UUIDs"
    require_tenant P T r info tenant_id
    require_branch_access P T r info branch_id
    require_service_access P T r info service_id
    answer ← ask (snapshot_tickets P tenant_id branch_id service_id)
    found ← or_map_error "" answer
    pure (ok_with (tickets found))

  unfoldable pub handle_active_ticket : Option AuthInfo → Web B (Response B)
  unfolding require_ids
  handle_active_ticket info = do
    require_method r "GET"
    let tenant_id : String = query_value P T r "tenant_id"
    let branch_id : String = query_value P T r "branch_id"
    let counter_id : String = query_value P T r "counter_id"
    require_ids (tenant_id ∷ branch_id ∷ counter_id ∷ [])
        "tenant_id, branch_id, and counter_id are required"
        "tenant_id, branch_id, and counter_id must be UUIDs"
    require_tenant P T r info tenant_id
    require_branch_access P T r info branch_id
    answer ← ask (get_active_ticket P tenant_id branch_id counter_id)
    found ← or_map_error "" answer
    maybe found (pure (status_only 204)) λ t. pure (ok_with (ticket t))

  read_after : String → Web B ℕ
  read_after raw =
      if raw =? ""
      then pure 0
      else maybe (T.parse_time raw) (respond (invalid_request "" "after must be RFC3339 timestamp"))
          (λ t. pure t)

  bad_limit : Web B ℤ
  bad_limit = respond (invalid_request "" "limit must be a positive integer")

  read_limit : String → Web B ℤ
  unfolding bad_limit
  read_limit raw =
      if raw =? ""
      then pure (pos 100)
      else maybe (T.parse_int raw) bad_limit (λ n. if is_positive n then pure n else bad_limit)

  unfoldable pub handle_events : Option AuthInfo → Web B (Response B)
  unfolding read_after read_limit
  handle_events info = do
    require_method r "GET"
    let tenant_id : String = query_value P T r "tenant_id"
    stop_if (tenant_id =? "") (invalid_request "" "tenant_id is required")
    stop_if (not (T.is_valid_uuid tenant_id)) (invalid_request "" "tenant_id must be a UUID")
    require_tenant P T r info tenant_id
    after ← read_after (query_value P T r "after")
    limit ← read_limit (query_value P T r "limit")
    answer ← ask (list_outbox_events P tenant_id after limit)
    found ← or_map_error "" answer
    pure (ok_with (outbox found))

  unfoldable pub handle_counters : Option AuthInfo → Web B (Response B)
  unfolding require_ids
  handle_counters info = do
    require_method r "GET"
    let tenant_id : String = query_value P T r "tenant_id"
    let branch_id : String = query_value P T r "branch_id"
    require_ids (tenant_id ∷ branch_id ∷ []) "tenant_id and branch_id are required"
        "tenant_id and branch_id must be UUIDs"
    require_tenant P T r info tenant_id
    require_branch_access P T r info branch_id
    answer ← ask (list_counters P T.text_before tenant_id branch_id)
    found ← or_map_error "" answer
    pure (ok_with (counters found))

  -- Public: without the checks of access.
  unfoldable pub handle_services : Web B (Response B)
  unfolding require_ids
  handle_services = do
    require_method r "GET"
    let tenant_id : String = query_value P T r "tenant_id"
    let branch_id : String = query_value P T r "branch_id"
    require_ids (tenant_id ∷ branch_id ∷ []) "tenant_id and branch_id are required"
        "tenant_id and branch_id must be UUIDs"
    answer ← ask (list_services P T.text_before tenant_id branch_id)
    found ← or_map_error "" answer
    pure (ok_with (services found))

  -- The store reports a ticket that is not there by an error, so `found` is always true.
  unfoldable pub handle_get_ticket : Option AuthInfo → String → Web B (Response B)
  unfolding require_ids
  handle_get_ticket info ticket_id = do
    stop_if (not (T.is_valid_uuid ticket_id)) (invalid_request "" "ticket_id must be a UUID")
    let tenant_id : String = query_value P T r "tenant_id"
    let branch_id : String = query_value P T r "branch_id"
    require_ids (tenant_id ∷ branch_id ∷ []) "tenant_id and branch_id are required"
        "tenant_id and branch_id must be UUIDs"
    require_tenant P T r info tenant_id
    answer ← ask (get_ticket P tenant_id branch_id ticket_id)
    found ← or_map_error "" answer
    pure (ok_with (ticket found))

  unfoldable pub handle_ticket_events : Option AuthInfo → String → Web B (Response B)
  handle_ticket_events info ticket_id = do
    let tenant_id : String = query_value P T r "tenant_id"
    stop_if (tenant_id =? "") (invalid_request "" "tenant_id is required")
    stop_if (not (T.is_valid_uuid tenant_id)) (invalid_request "" "tenant_id must be a UUID")
    require_tenant P T r info tenant_id
    answer ← ask (list_ticket_events P tenant_id ticket_id)
    found ← or_map_error "" answer
    pure (ok_with (log found))

  -- A session that is limited to services must name one.
  names_no_service : Option AuthInfo → String → Bool
  names_no_service none service_id = false
  names_no_service (some info) service_id = not (is_empty info.services) && service_id =? ""

  unfoldable pub handle_queues : Option AuthInfo → Web B (Response B)
  unfolding require_ids names_no_service
  handle_queues info = do
    require_method r "GET"
    let tenant_id : String = query_value P T r "tenant_id"
    let branch_id : String = query_value P T r "branch_id"
    let service_id : String = query_value P T r "service_id"
    require_ids (tenant_id ∷ branch_id ∷ []) "tenant_id and branch_id are required"
        "tenant_id and branch_id must be UUIDs"
    stop_if (not (service_id =? "") && not (T.is_valid_uuid service_id))
        (invalid_request "" "service_id must be a UUID when provided")
    require_tenant P T r info tenant_id
    require_branch_access P T r info branch_id
    stop_if (names_no_service info service_id)
        (write_error "" 403 "access_denied" "service access denied")
    if service_id =? "" then pure tt else require_service_access P T r info service_id
    answer ← ask (list_queue P tenant_id branch_id service_id)
    found ← or_map_error "" answer
    pure (ok_with (tickets found))
