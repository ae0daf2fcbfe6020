-- ===== src/Queue/Accounts.antt =====
-- services/queue-service/internal/store/postgres/store.go: `GetSession` and `GetAccess`.
use qms.Base.{ℕ, String, ◌&&◌, Option, none, some, List, map, ◌=?◌, maybe, ltb, find, select}
use qms.Queue.Models.{session_not_found}
use qms.Queue.Db.{Db, SessionRow, UserRow, RoleRow, AccessRow}
use qms.Queue.Tx.{Platform, Tx, pure, ◌>>=◌, or_raise, query, statement}

pub record Session : Type 0 where
  pub session_id : String
  pub user_id : String
  pub tenant_id : String
  pub role : String
  pub expires_at : ℕ

-- The join of `sessions`, `users` and `roles`, each on a primary key.
unfoldable pub find_session : {B : Type 0} → String → ℕ → Db B → Option Session
find_session session_id now d =
    maybe (find (λ (s : SessionRow). s.session_id =? session_id && ltb now s.expires_at) d.sessions)
      none
      λ (s : SessionRow).
        maybe (find (λ (u : UserRow). u.user_id =? s.user_id) d.users) none λ (u : UserRow).
          maybe (find (λ (r : RoleRow). r.role_id =? u.role_id) d.roles) none λ (r : RoleRow).
            some (record {
              session_id = s.session_id;
              user_id = s.user_id;
              tenant_id = u.tenant_id;
              role = r.name;
              expires_at = s.expires_at;
            })

unfoldable pub granted_to : String → List AccessRow → List String
granted_to user_id rows =
    map (λ (a : AccessRow). a.granted) (select (λ (a : AccessRow). a.user_id =? user_id) rows)

module _ {B : Type 0} (P : Platform B) where
  -- `NOW()` is the clock at the statement.
  unfoldable pub get_session : String → Tx B Session
  get_session session_id = do
    found ← statement P (λ t d. some (find_session session_id (P.clock t) d, d))
    or_raise found session_not_found

  unfoldable pub get_access : String → Tx B (List String × List String)
  get_access user_id = do
    branches ← query P (λ d. granted_to user_id d.user_branch_access)
    services ← query P (λ d. granted_to user_id d.user_service_access)
    pure (branches, services)
