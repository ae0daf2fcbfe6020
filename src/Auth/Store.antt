-- ===== src/Auth/Store.antt =====
-- services/auth-service/internal/store/postgres/store.go: the methods of the store.
use qms.Base.{ℕ, ◌+◌, String, not, ◌&&◌, Option, none, some, List, ◌=?◌, any}
use qms.Queue.Accounts.{granted_to}
use qms.Queue.Tx
use qms.Queue.Tx.{Platform, transact}
use qms.Auth.Run.{Run, pure, or_stop, stop_if, ◌>>=◌, ◌>>◌, ask, submit}
use qms.Auth.Rows.{
  Error, invalid_credentials, access_denied, session_not_found, other, User, Session, LoginInput,
  LoginResult, Passwords, find_login, find_live, find_mapped, insert_session,
}
use qms.Auth.Mapped.{insert_mapped}

-- `8*time.Hour`
abbrev pub eight_hours : ℕ
eight_hours = 28_800_000_000_000

module _ {B : Type 0} (P : Platform B) where
  unfoldable pub get_session : String → Run B Error (Session × User)
  get_session session_id = do
    found ← ask other (Tx.statement P (λ t d. some (find_live session_id (P.clock t) d, d)))
    or_stop found session_not_found

  unfoldable pub get_access : String → Run B Error (List String × List String)
  get_access user_id = do
    branches ← ask other (Tx.query P (λ d. granted_to user_id d.user_branch_access))
    services ← ask other (Tx.query P (λ d. granted_to user_id d.user_service_access))
    pure (branches, services)

  unfoldable pub create_session : String → ℕ → Run B Error Session
  create_session user_id expires_at = do
    session_id ← ask other (Tx.new_uuid P)
    ask other (
        Tx.statement P λ t d.
          insert_session
            (record { session_id = session_id; user_id = user_id; expires_at = expires_at }) d)
    pure (record { session_id = session_id; user_id = user_id; expires_at = expires_at })

  -- `s.CreateSession(ctx, user.UserID, time.Now().UTC().Add(8*time.Hour))` and what follows it.
  unfoldable pub open_session : User → List String → List String → Run B Error LoginResult
  unfolding create_session
  open_session user branches services = do
    now ← ask other (Tx.now P)
    session ← create_session user.user_id (now + eight_hours)
    pure (record { user = user; session = session; branches = branches; services = services })

  unfoldable pub login : Passwords → LoginInput → Run B Error LoginResult
  unfolding get_access open_session
  login W input = do
    found ← ask other (Tx.query P (find_login W input.tenant_id input.email))
    (user, password_hash) ← or_stop found invalid_credentials
    stop_if (not (W.compare_hash_and_password password_hash input.password)) invalid_credentials
    (branches, services) ← get_access user.user_id
    stop_if (not (input.branch_id =? "") && not (any (λ b. b =? input.branch_id) branches))
        access_denied
    open_session user branches services

  -- The user and the mapping are committed before access and session are looked to.
  unfoldable pub create_mapped_user : String → String → String → String → Run B Error LoginResult
  unfolding get_access open_session
  create_mapped_user tenant_id provider subject email = do
    user ←
        submit other
          λ s. transact P (insert_mapped P tenant_id provider subject email (P.clock s.tick)) s
    (branches, services) ← get_access user.user_id
    open_session user branches services

  abbrev pub or_create : Run B Error LoginResult → Option User → Run B Error LoginResult
  or_create create none = create
  or_create create (some user) = do
    (branches, services) ← get_access user.user_id
    open_session user branches services

  unfoldable pub sso_login : String → String → String → String → Run B Error LoginResult
  unfolding create_mapped_user
  sso_login tenant_id provider subject email = do
    found ← ask other (Tx.query P (find_mapped tenant_id provider subject))
    or_create (create_mapped_user tenant_id provider subject email) found
