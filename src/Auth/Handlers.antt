-- ===== src/Auth/Handlers.antt =====
-- services/auth-service/internal/httpapi/handler.go: the handlers and `Routes`. The path is as
-- net/http's ServeMux matches it, after its cleaning.
use qms.Base.{
  ℕ, ◌/◌, String, Bool, not, ◌&&◌, ◌||◌, Option, none, some, List, [], ◌∷◌, ◌=?◌, if◌then◌else◌,
}
use qms.Queue.Tx
use qms.Queue.Tx.{Platform}
use qms.Http.Messages.{Decoded}
use qms.Auth.Run.{Run, pure, stop, or_stop, stop_if, ◌>>=◌, ◌>>◌, ask, or_end}
use qms.Auth.Rows.{
  Error, invalid_credentials, access_denied, session_not_found, LoginResult, Passwords,
}
use qms.Auth.Store.{login, sso_login, get_session, get_access}
use qms.Auth.Tokens.{Codecs, validate_jwt, extract_saml_name_id}

pub record LoginRequest : Type 0 where
  pub tenant_id : String
  pub email : String
  pub password : String
  pub branch_id : String

pub record SsoRequest : Type 0 where
  pub tenant_id : String
  pub provider : String
  pub subject : String
  pub email : String

pub record JwtRequest : Type 0 where
  pub tenant_id : String
  pub token : String

pub record SamlRequest : Type 0 where
  pub tenant_id : String
  pub assertion : String

-- The body as each handler's decoder reads it.
pub record Body : Type 0 where
  pub as_login : Decoded LoginRequest
  pub as_sso : Decoded SsoRequest
  pub as_jwt : Decoded JwtRequest
  pub as_saml : Decoded SamlRequest

pub record HttpRequest : Type 0 where
  pub method : String
  pub path : String
  pub header : String → String
  pub body : Body

pub record LoginResponse : Type 0 where
  pub session_id : String
  pub expires_at : String
  pub user_id : String
  pub tenant_id : String
  pub role : String
  pub email : String
  pub branches : List String
  pub services : List String

pub data Payload : Type 0 where
  no_payload : Payload
  error : String → String → String → Payload
  signed_in : LoginResponse → Payload
  raw : LoginResult → Payload

pub record Response : Type 0 where
  pub status : ℕ
  pub payload : Payload

-- `AUTH_SSO_JWT_SECRET` and `AUTH_SSO_JWT_ISSUER`, the UUID parser, `strings.Fields`, and the
-- format of package time.
pub record Environment : Type 0 where
  pub jwt_secret : String
  pub jwt_issuer : String
  pub is_valid_uuid : String → Bool
  pub fields : String → List String
  pub rfc3339 : ℕ → String

abbrev pub status_only : ℕ → Response
status_only code = record { status = code; payload = no_payload }

-- Exactly two parts.
abbrev pub two_parts : List String → Option (String × String)
two_parts (a ∷ b ∷ []) = some (a, b)
two_parts _ = none

module _ {B : Type 0} (P : Platform B) (W : Passwords) (K : Codecs) (V : Environment)
    (r : HttpRequest) where
  unfoldable pub write_error : ℕ → String → String → Response
  write_error code name message = record {
    status = code;
    payload = error (P.trim_space (r.header "X-Request-ID")) name message;
  }

  abbrev pub bad_request : String → Response
  bad_request = write_error 400 "invalid_request"

  abbrev pub internal_error : Response
  internal_error = write_error 500 "internal_error" "internal server error"

  -- The frame of the handlers that take a body.
  abbrev pub decoded_post : {A : Type 0} → Decoded A → Run B Response A
  decoded_post d = do
    stop_if (not (r.method =? "POST")) (status_only 405)
    stop_if (not d.is_ok) (write_error 400 "invalid_json" "invalid JSON payload")
    pure d.value

  unfoldable pub response_of : LoginResult → Response
  response_of result = record {
    status = 200;
    payload = signed_in (record {
      session_id = result.session.session_id;
      expires_at = V.rfc3339 result.session.expires_at;
      user_id = result.user.user_id;
      tenant_id = result.user.tenant_id;
      role = result.user.role_name;
      email = result.user.email;
      branches = result.branches;
      services = result.services;
    });
  }

  abbrev pub login_error : Error → Response
  login_error invalid_credentials = write_error 401 "invalid_credentials" "invalid credentials"
  login_error access_denied = write_error 403 "access_denied" "access to branch denied"
  login_error _ = internal_error

  unfoldable pub handle_health : Run B Response Response
  handle_health = do stop_if (not (r.method =? "GET")) (status_only 405); pure (status_only 200)

  unfoldable pub handle_login : Run B Response Response
  unfolding response_of write_error
  handle_login = do
    req ← decoded_post r.body.as_login
    let tenant_id = P.trim_space req.tenant_id
    let email = P.trim_space req.email
    let password = P.trim_space req.password
    let branch_id = P.trim_space req.branch_id
    stop_if (tenant_id =? "" || (email =? "" || password =? ""))
        (bad_request "tenant_id, email, and password are required")
    stop_if (not (V.is_valid_uuid tenant_id)) (bad_request "tenant_id must be a UUID")
    stop_if (not (branch_id =? "") && not (V.is_valid_uuid branch_id))
        (bad_request "branch_id must be a UUID")
    result ← or_end login_error (
        login P W (record {
          tenant_id = tenant_id;
          email = email;
          password = password;
          branch_id = branch_id;
        }))
    pure (response_of result)

  unfoldable pub handle_sso : Run B Response Response
  unfolding response_of write_error
  handle_sso = do
    req ← decoded_post r.body.as_sso
    let tenant_id = P.trim_space req.tenant_id
    let provider = P.trim_space req.provider
    let subject = P.trim_space req.subject
    let email = P.trim_space req.email
    stop_if (tenant_id =? "" || (provider =? "" || subject =? ""))
        (bad_request "tenant_id, provider, subject are required")
    stop_if (not (V.is_valid_uuid tenant_id)) (bad_request "tenant_id must be a UUID")
    result ← or_end (λ _. internal_error) (sso_login P tenant_id provider subject email)
    pure (response_of result)

  -- Where the token is read, at the clock's time in seconds.
  unfoldable pub valid_token : String → Run B Response (String × String)
  unfolding write_error
  valid_token token = do
    now ← ask (λ _. internal_error) (Tx.now P)
    or_stop (validate_jwt K token V.jwt_secret (P.trim_space V.jwt_issuer) (now / 1_000_000_000))
        (write_error 401 "invalid_token" "invalid SSO token")

  unfoldable pub handle_jwt_sso : Run B Response Response
  unfolding response_of write_error valid_token
  handle_jwt_sso = do
    req ← decoded_post r.body.as_jwt
    let tenant_id = P.trim_space req.tenant_id
    let token = P.trim_space req.token
    stop_if (tenant_id =? "" || token =? "") (bad_request "tenant_id and token are required")
    stop_if (not (V.is_valid_uuid tenant_id)) (bad_request "tenant_id must be a UUID")
    stop_if (V.jwt_secret =? "") (write_error 500 "config_missing" "AUTH_SSO_JWT_SECRET is not set")
    (subject, email) ← valid_token token
    result ← or_end (λ _. internal_error) (sso_login P tenant_id "jwt" subject email)
    pure (response_of result)

  -- The assertion, decoded if it is base64.
  abbrev pub decoded_assertion : String → Option String → String
  decoded_assertion assertion none = assertion
  decoded_assertion assertion (some bytes) = bytes

  -- A name that is missing or empty is an error.
  abbrev pub name_or_stop : Option String → Run B Response String
  name_or_stop none = stop (write_error 401 "invalid_assertion" "invalid SAML assertion")
  name_or_stop (some name_id) =
      if name_id =? ""
      then stop (write_error 401 "invalid_assertion" "invalid SAML assertion")
      else pure name_id

  unfoldable pub handle_saml_sso : Run B Response Response
  unfolding write_error
  handle_saml_sso = do
    req ← decoded_post r.body.as_saml
    let tenant_id = P.trim_space req.tenant_id
    let assertion = P.trim_space req.assertion
    stop_if (not (V.is_valid_uuid tenant_id) || assertion =? "")
        (bad_request "tenant_id and assertion are required")
    name_id ←
        name_or_stop
          (extract_saml_name_id K (decoded_assertion assertion (K.decode_standard assertion)))
    result ←
        or_end (λ _. write_error 401 "invalid_credentials" "invalid SSO credentials")
          (sso_login P tenant_id "saml" name_id name_id)
    pure (record { status = 200; payload = raw result })

  unfoldable pub bearer_token : String → String
  bearer_token header = if header =? "" then "" else elim (two_parts (V.fields header)) [
    | none ↦ ""
    | some (a, b) ↦ if P.to_lower a =? "bearer" then b else ""
  ]

  abbrev pub session_error : Error → Response
  session_error session_not_found = write_error 401 "unauthorized" "invalid session"
  session_error _ = internal_error

  unfoldable pub handle_me : Run B Response Response
  unfolding response_of write_error bearer_token
  handle_me = do
    stop_if (not (r.method =? "GET")) (status_only 405)
    let session_id = P.trim_space (bearer_token (r.header "Authorization"))
    stop_if (session_id =? "") (write_error 401 "unauthorized" "missing session token")
    (session, user) ← or_end session_error (get_session P session_id)
    (branches, services) ← or_end (λ _. internal_error) (get_access P user.user_id)
    pure (
        response_of
          (record { user = user; session = session; branches = branches; services = services }))

  -- `/metrics` is package expvar's.
  unfoldable pub handle : Run B Response Response
  unfolding handle_health handle_login handle_sso handle_jwt_sso handle_saml_sso handle_me
  handle =
      if r.path =? "/healthz"
      then handle_health
      else if r.path =? "/api/auth/login"
      then handle_login
      else if r.path =? "/api/auth/sso"
      then handle_sso
      else if r.path =? "/api/auth/sso/jwt"
      then handle_jwt_sso
      else if r.path =? "/api/auth/sso/saml"
      then handle_saml_sso
      else if r.path =? "/api/auth/me"
      then handle_me
      else stop (status_only 404)
