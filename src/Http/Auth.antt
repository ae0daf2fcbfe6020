-- ===== src/Http/Auth.antt =====
-- services/queue-service/internal/httpapi/auth.go.
use qms.Base.{
  String, Bool, true, false, ◌=?◌, Option, none, some, List, [], ◌∷◌, if◌then◌else◌, any,
}
use qms.Queue.Models.{session_not_found}
use qms.Queue.Tx.{Platform, Answer, answered, refused}
use qms.Queue.Accounts.{Session, get_session, get_access}
use qms.Http.Messages.{HttpRequest, Parsers, write_error}
use qms.Http.Web.{Web, pure, respond, ask, ◌>>=◌, ◌>>◌, stop_if}

pub record AuthInfo : Type 0 where
  pub session : Session
  pub branches : List String
  pub services : List String

abbrev pub contains : List String → String → Bool
contains values value = any (λ (item : String). item =? value) values

abbrev pub is_empty : List String → Bool
is_empty [] = true
is_empty _ = false

unfoldable pub is_public_endpoint : HttpRequest → Bool
is_public_endpoint r =
    if r.path =? "/healthz"
    then true
    else if r.path =? "/metrics"
    then true
    else if r.path =? "/api/tickets"
    then r.method =? "POST"
    else if r.path =? "/api/services"
    then r.method =? "GET"
    else r.method =? "OPTIONS"

module _ {B : Type 0} (P : Platform B) (T : Parsers) (r : HttpRequest) where
  abbrev pub request_id_from_request : String
  request_id_from_request = P.trim_space (r.header "X-Request-ID")

  two_words : List String → Option (String × String)
  two_words (a ∷ b ∷ []) = some (a, b)
  two_words _ = none

  unfoldable pub bearer_token : String → String
  unfolding two_words
  bearer_token header = if header =? "" then "" else elim (two_words (T.fields header)) [
    | none ↦ ""
    | some (a, b) ↦ if P.to_lower a =? "bearer" then b else ""
  ]

  unfoldable pub session_id_from_request : String
  session_id_from_request =
      let token = bearer_token (r.header "Authorization") in
      if token =? "" then P.trim_space (r.header "X-Session-ID") else token

  -- The errors of `GetSession`.
  abbrev pub or_unauthorized : Answer Session → Web B Session
  or_unauthorized (answered s) = pure s
  or_unauthorized (refused session_not_found) =
      respond (write_error request_id_from_request 401 "unauthorized" "invalid session")
  or_unauthorized (refused _) =
      respond (write_error request_id_from_request 500 "internal_error" "internal server error")

  -- The end of the middleware, after `GetAccess`.
  abbrev pub with_access : Session → Answer (List String × List String) → Web B (Option AuthInfo)
  with_access session (answered (branches, services)) =
      pure (some (record { session = session; branches = branches; services = services }))
  with_access session (refused _) =
      respond (write_error request_id_from_request 500 "internal_error" "access lookup failed")

  -- What the request's context holds when the next handler is called; `none` on a public endpoint.
  unfoldable pub authenticate : Web B (Option AuthInfo)
  authenticate = if is_public_endpoint r then pure none else do
    let session_id = session_id_from_request
    stop_if (session_id =? "")
        (write_error request_id_from_request 401 "unauthorized" "missing session")
    found ← ask (get_session P session_id)
    session ← or_unauthorized found
    access ← ask (get_access P session.user_id)
    with_access session access

  missing_session : {A : Type 0} → Web B A
  missing_session =
      respond (write_error request_id_from_request 401 "unauthorized" "missing session")

  unfoldable pub require_tenant : Option AuthInfo → String → Web B (Unit {0})
  unfolding missing_session
  require_tenant none tenant_id = missing_session
  require_tenant (some info) tenant_id =
      if tenant_id =? ""
      then respond
          (write_error request_id_from_request 400 "invalid_request" "tenant_id is required")
      else if info.session.tenant_id =? tenant_id
      then pure tt
      else respond (write_error request_id_from_request 403 "access_denied" "tenant access denied")

  -- `requireBranchAccess` and `requireServiceAccess`, which differ in the list and the words.
  require_access :
      (AuthInfo → List String) → String → String → Option AuthInfo → String → Web B (Unit {0})
  unfolding missing_session
  require_access list required denied none id = missing_session
  require_access list required denied (some info) id =
      if id =? ""
      then respond (write_error request_id_from_request 400 "invalid_request" required)
      else if is_empty (list info)
      then pure tt
      else if contains (list info) id
      then pure tt
      else respond (write_error request_id_from_request 403 "access_denied" denied)

  unfoldable pub require_branch_access : Option AuthInfo → String → Web B (Unit {0})
  unfolding require_access
  require_branch_access =
      require_access (λ (i : AuthInfo). i.branches) "branch_id is required" "branch access denied"

  unfoldable pub require_service_access : Option AuthInfo → String → Web B (Unit {0})
  unfolding require_access
  require_service_access =
      require_access (λ (i : AuthInfo). i.services) "service_id is required" "service access denied"
