-- ===== src/Auth/TokenSessions.antt =====
-- services/auth-service/internal/httpapi/handler.go: the sessions that `handleJWTSSO` gives.
use qms.Base.{ℕ, String, ◌≢◌}
use qms.Queue.Db.{Db}
use qms.Queue.Tx.{Platform}
use qms.Auth.Run.{value}
use qms.Auth.Rows.{LoginResult, Passwords}
use qms.Auth.Tokens.{Codecs}
use qms.Auth.Signatures.{Accepted}
use qms.Auth.Accounts.{IsMapped}
use qms.Auth.Handlers.{HttpRequest, Environment}

-- The session of an accepted token: `now` is in seconds, and `d` are the tables afterwards.
pub record TokenSession {B : Type 0} (K : Codecs) (V : Environment)
    (tenant_id token issuer : String) (now : ℕ) (result : LoginResult) (d : Db B) : Type 0 where
  pub subject : String
  pub email : String
  pub has_secret : V.jwt_secret ≢ ""
  pub accepted : Accepted K token V.jwt_secret issuer now subject email
  pub mapped : IsMapped tenant_id "jwt" subject result.user.user_id d

module _ {B : Type 0} (P : Platform B) (W : Passwords) (K : Codecs) (V : Environment)
    (r : HttpRequest) where
  abbrev tenant : String
  tenant = P.trim_space r.body.as_jwt.value.tenant_id

  abbrev token : String
  token = P.trim_space r.body.as_jwt.value.token
