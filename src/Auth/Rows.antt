-- ===== src/Auth/Rows.antt =====
-- services/auth-service/internal/store: errors.go, store.go, and the SQL statements of
-- postgres/store.go.
use qms.Base.{
  ℕ, String, Bool, ◌&&◌, Option, none, some, List, [], ◌∷◌, ◌++◌, ◌=?◌, ltb, if◌then◌else◌, maybe,
  find, any,
}
use qms.Queue.Models
use qms.Queue.Db.{Db, SessionRow, UserRow, RoleRow, MappingRow}

pub data Error : Type 0 where
  invalid_credentials access_denied session_not_found : Error
  other : Models.Error → Error

-- `none` is Go's zero time.
pub record User : Type 0 where
  pub user_id : String
  pub tenant_id : String
  pub role_name : String
  pub email : String
  pub created : Option ℕ

pub record Session : Type 0 where
  pub session_id : String
  pub user_id : String
  pub expires_at : ℕ

pub record LoginInput : Type 0 where
  pub tenant_id : String
  pub email : String
  pub password : String
  pub branch_id : String

pub record LoginResult : Type 0 where
  pub user : User
  pub session : Session
  pub branches : List String
  pub services : List String

-- PostgreSQL's `lower`, and `bcrypt.CompareHashAndPassword` with `true` for no error.
pub record Passwords : Type 0 where
  pub lower : String → String
  pub compare_hash_and_password : String → String → Bool

abbrev pub user_of : UserRow → RoleRow → User
user_of u r = record {
  user_id = u.user_id;
  tenant_id = u.tenant_id;
  role_name = r.name;
  email = u.email;
  created = some u.created_at;
}

-- The join of a row of `users` with `roles`, on the primary key.
unfoldable pub with_role : {B : Type 0} → Db B → UserRow → Option User
with_role d u =
    maybe (find (λ (r : RoleRow). r.role_id =? u.role_id) d.roles) none
      λ (r : RoleRow). some (user_of u r)

abbrev pub is_login : Passwords → String → String → UserRow → Bool
is_login W tenant_id email u =
    u.tenant_id =? tenant_id && (W.lower u.email =? W.lower email && u.active)

-- The row that `Login` reads: the user, and the hash of the password.
unfoldable pub find_login :
    {B : Type 0} → Passwords → String → String → Db B → Option (User × String)
find_login W tenant_id email d =
    maybe (find (is_login W tenant_id email) d.users) none
      λ (u : UserRow). maybe (with_role d u) none λ user. some (user, u.password_hash)

-- The rows that `GetSession` reads.
unfoldable pub find_live : {B : Type 0} → String → ℕ → Db B → Option (Session × User)
find_live session_id now d =
    maybe (find (λ (s : SessionRow). s.session_id =? session_id && ltb now s.expires_at) d.sessions)
      none
      λ (s : SessionRow).
        maybe (find (λ (u : UserRow). u.user_id =? s.user_id) d.users) none λ (u : UserRow).
          maybe (with_role d u) none λ user. some (
            record { session_id = s.session_id; user_id = s.user_id; expires_at = s.expires_at },
            user,
          )

abbrev pub is_mapping : String → String → String → MappingRow → Bool
is_mapping tenant_id provider subject m =
    m.tenant_id =? tenant_id && (m.provider =? provider && m.subject =? subject)

-- The row that `SSOLogin` reads.
unfoldable pub find_mapped : {B : Type 0} → String → String → String → Db B → Option User
find_mapped tenant_id provider subject d =
    maybe (find (is_mapping tenant_id provider subject) d.user_idp_mappings) none
      λ (m : MappingRow).
        maybe (find (λ (u : UserRow). u.user_id =? m.user_id && u.active) d.users) none
          (with_role d)

-- The `INSERT` into `sessions`, with its primary key and its reference to `users`.
unfoldable pub insert_session : {B : Type 0} → SessionRow → Db B → Option (Unit {0} × Db B)
insert_session row d =
    if any (λ (s : SessionRow). s.session_id =? row.session_id) d.sessions
    then none
    else if any (λ (u : UserRow). u.user_id =? row.user_id) d.users
    then some (tt, record d { sessions = d.sessions ++ row ∷ [] })
    else none

-- The `INSERT` into `users`: the primary key, `UNIQUE (tenant_id, email)` and the role.
unfoldable pub insert_user : {B : Type 0} → UserRow → Db B → Option (Unit {0} × Db B)
insert_user row d =
    if any (λ (u : UserRow). u.user_id =? row.user_id) d.users
    then none
    else if any (λ (u : UserRow). u.tenant_id =? row.tenant_id && u.email =? row.email) d.users
    then none
    else if any (λ (r : RoleRow). r.role_id =? row.role_id) d.roles
    then some (tt, record d { users = d.users ++ row ∷ [] })
    else none

-- The `INSERT` into `user_idp_mappings`: the primary key, `UNIQUE (tenant_id, provider, subject)`
-- and the user.
unfoldable pub insert_mapping : {B : Type 0} → MappingRow → Db B → Option (Unit {0} × Db B)
insert_mapping row d =
    if any (λ (m : MappingRow). m.mapping_id =? row.mapping_id) d.user_idp_mappings
    then none
    else if any (is_mapping row.tenant_id row.provider row.subject) d.user_idp_mappings
    then none
    else if any (λ (u : UserRow). u.user_id =? row.user_id) d.users
    then some (tt, record d { user_idp_mappings = d.user_idp_mappings ++ row ∷ [] })
    else none
