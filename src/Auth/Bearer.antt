-- ===== src/Auth/Bearer.antt =====
-- A session of services/auth-service/internal/store/postgres/store.go in the middleware of
-- services/queue-service/internal/httpapi/auth.go.
use qms.Base.{
  ℕ, ◌+◌, ◌<◌, String, ◌=?◌, false, some, ◌≡◌, refl, sym, ap, ◌∙◌, ◌≢◌, Bool-cases, inl, inr,
  eq_iff,
}
use qms.Queue.Db.{Db}
use qms.Queue.Accounts
use qms.Queue.Accounts.{find_session, granted_to, get_session, get_access}
use qms.Queue.Tx
use qms.Queue.Tx.{Platform, State}
use qms.Queue.Tx.Quiet.{IsQuiet, statement_quiet, query_quiet}
use qms.Http.Messages.{HttpRequest, Parsers}
use qms.Http.Web
use qms.Http.Web.{go}
use qms.Http.Auth.{AuthInfo, is_public_endpoint, session_id_from_request, authenticate}
use qms.Auth.Run.{value}
use qms.Auth.Rows.{LoginInput, LoginResult, Passwords}
use qms.Auth.Store.{login}
use qms.Auth.SignIn.{Opened, login-Opened, row_of}
use qms.Auth.Sessions.{HasKeyedUsers, session_of, insert_session-some, login-find_session}

-- What the middleware puts into the request's context.
abbrev pub info_of : LoginResult → AuthInfo
info_of r = record { session = session_of r; branches = r.branches; services = r.services }

not_empty : (id : String) → id ≢ "" → (id =? "") ≡ false
not_empty id h = elim (Bool-cases (id =? "")) [
  | inl e ↦ absurd (h ((eq_iff id "").0 e))
  | inr e ↦ e
]

module _ {B : Type 0} (P : Platform B) (quiet : IsQuiet P) (T : Parsers) (r : HttpRequest) where
  authenticate_live :
      (s : State B) (session : Accounts.Session)
      → is_public_endpoint r ≡ false
      → (session_id_from_request P T r =? "") ≡ false
      → find_session (session_id_from_request P T r) (P.clock s.tick) s.db ≡ some session
      → authenticate P T r s ≡ (
        go (
            some (record {
              session = session;
              branches = granted_to session.user_id s.db.user_branch_access;
              services = granted_to session.user_id s.db.user_service_access;
            })),
        record s { tick = s.tick + 1 + 1 + 1 },
      )
  unfolding authenticate get_session get_access Web.◌>>=◌ Web.ask Web.pure Tx.◌>>=◌ Tx.pure
  authenticate_live s session private present found =
      simp (private, present, statement_quiet P quiet, query_quiet P quiet, found) refl

  granted_after :
      (time : ℕ) (result : LoginResult) (d d' : Db B)
      → Opened time result d d'
      → (granted_to result.user.user_id d'.user_branch_access ≡ result.branches)
        × (granted_to result.user.user_id d'.user_service_access ≡ result.services)
  granted_after time result d d' o =
      let (fresh, same) = insert_session-some (row_of result.session) d d' o.inserted in
      (
        ap (λ (e : Db B). granted_to result.user.user_id e.user_branch_access) same
            ∙ sym o.branches,
        ap (λ (e : Db B). granted_to result.user.user_id e.user_service_access) same
            ∙ sym o.services,
      )

  -- If `Login` succeeds on tables in which a row of `users` is the only one with its id, and a
  -- request of an endpoint that is not public names the session that was returned, whose id is not
  -- empty, before the session ends, on a database that does not fail, then the queue service's
  -- middleware passes the request on with that session's user, tenant and role, and with the
  -- branches and services that `Login` returned.
  pub login-authenticate :
      (W : Passwords) (input : LoginInput) (s : State B) (result : LoginResult) (s' : State B)
      → HasKeyedUsers s.db
      → login P W input s ≡ (value result, s')
      → is_public_endpoint r ≡ false
      → session_id_from_request P T r ≡ result.session.session_id
      → result.session.session_id ≢ ""
      → P.clock s'.tick < result.session.expires_at
      → authenticate P T r s'
        ≡ (go (some (info_of result)), record s' { tick = s'.tick + 1 + 1 + 1 })
  login-authenticate W input s result s' keyed h private same present live =
      let (p, o) = (login-Opened P W input s).at result s' h in
      let (b, v) = granted_after _ result s.db s'.db o in
      let found = (login-find_session P W input s result s' (P.clock s'.tick) keyed h live).2 in
      authenticate_live s' (session_of result) private
        (rw same (not_empty result.session.session_id present)) (rw same found)
      ∙ rw (b, v) refl
