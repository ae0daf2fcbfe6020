-- ===== src/Auth/Sessions.antt =====
-- services/auth-service/internal/store/postgres/store.go: the sessions that `Login` creates, as
-- services/queue-service reads them.
use qms.Base.{
  ℕ, ◌+◌, ◌<◌, String, ◌&&◌, ◌=?◌, true, false, some, [], ◌∷◌, ◌++◌, ◌≡◌, refl, sym, ap, ◌∙◌, any,
  find, maybe, ltb, arith, subst, Option-cases, inl, inr, All, mem-All, find-mem, find-append_one,
  find-none_of_any, and_true, eq_refl, eq_iff,
}
use qms.Queue.Db.{Db, SessionRow, UserRow, RoleRow}
use qms.Queue.Accounts
use qms.Queue.Accounts.{find_session}
use qms.Queue.Tx.{Platform, State}
use qms.Auth.Run.{value}
use qms.Auth.Rows.{
  User, LoginInput, LoginResult, Passwords, find_login, insert_session, with_role, is_login,
  user_of,
}
use qms.Auth.Store.{login, eight_hours}
use qms.Auth.SignIn.{Opened, login-Opened, row_of}

-- A row of `users` is the only one with its `user_id`.
abbrev pub HasKeyedUsers : {B : Type 0} → Db B → Type 0
HasKeyedUsers d =
    All (λ (u : UserRow). find (λ (v : UserRow). v.user_id =? u.user_id) d.users ≡ some u) d.users

-- A session as the queue service reads it.
abbrev pub session_of : LoginResult → Accounts.Session
session_of r = record {
  session_id = r.session.session_id;
  user_id = r.user.user_id;
  tenant_id = r.user.tenant_id;
  role = r.user.role_name;
  expires_at = r.session.expires_at;
}

module _ {B : Type 0} where
  pub insert_session-some :
      (row : SessionRow) (d d' : Db B)
      → insert_session row d ≡ some (tt, d')
      → (any (λ (s : SessionRow). s.session_id =? row.session_id) d.sessions ≡ false)
        × (d' ≡ record d { sessions = d.sessions ++ row ∷ [] })
  unfolding insert_session
  insert_session-some row d d' h = (ground (arith, h), ground (arith, h))

  pub with_role-some :
      (d : Db B) (u : UserRow) (user : User)
      → with_role d u ≡ some user
      → (r : RoleRow) × (find (λ (r : RoleRow). r.role_id =? u.role_id) d.roles ≡ some r)
        × (user_of u r ≡ user)
  unfolding with_role maybe
  with_role-some d u user h =
      elim (Option-cases (find (λ (r : RoleRow). r.role_id =? u.role_id) d.roles)) [
        | inl e ↦ absurd (cc (rw e at h))
        | inr (r, e) ↦ (r, e, cc (rw e at h))
      ]

  pub find_login-some :
      (W : Passwords) (tenant_id email : String) (d : Db B) (user : User) (hash : String)
      → find_login W tenant_id email d ≡ some (user, hash)
      → (u : UserRow) × (find (is_login W tenant_id email) d.users ≡ some u)
        × (with_role d u ≡ some user)
        × (u.password_hash ≡ hash)
  unfolding find_login maybe
  find_login-some W tenant_id email d user hash h =
      elim (Option-cases (find (is_login W tenant_id email) d.users)) [
        | inl e ↦ absurd (cc (rw e at h))
        | inr (u, e) ↦ elim (Option-cases (with_role d u)) [
          | inl k ↦ absurd (cc (rw (e, k) at h))
          | inr (v, k) ↦ (u, e, k ∙ cc (rw (e, k) at h), cc (rw (e, k) at h))
        ]
      ]

  -- The row that was just inserted is found.
  pub find_session-inserted :
      (result : LoginResult) (now : ℕ) (d d' : Db B) (u : UserRow) (r : RoleRow)
      → insert_session (row_of result.session) d ≡ some (tt, d')
      → ltb now result.session.expires_at ≡ true
      → find (λ (v : UserRow). v.user_id =? result.session.user_id) d.users ≡ some u
      → find (λ (r : RoleRow). r.role_id =? u.role_id) d.roles ≡ some r
      → find_session result.session.session_id now d'
        ≡ some (record {
          session_id = result.session.session_id;
          user_id = result.session.user_id;
          tenant_id = u.tenant_id;
          role = r.name;
          expires_at = result.session.expires_at;
        })
  unfolding find_session maybe
  find_session-inserted result now d d' u r h live fu fr =
      let (fresh, same) = insert_session-some (row_of result.session) d d' h in
      let live_row =
        λ (s : SessionRow). s.session_id =? result.session.session_id && ltb now s.expires_at in
      let found =
        find-append_one live_row d.sessions (row_of result.session)
          (find-none_of_any (λ (s : SessionRow). s.session_id =? result.session.session_id) live_row
            d.sessions (λ s e. (and_true _ _ e).0) fresh)
          (rw (live, eq_refl result.session.session_id) refl) in
      rw same (rw found (rw fu (rw fr refl)))

  after_login :
      (W : Passwords) (tenant_id email : String) (time now : ℕ) (result : LoginResult)
      (hash : String) (d d' : Db B)
      → HasKeyedUsers d
      → find_login W tenant_id email d ≡ some (result.user, hash)
      → Opened time result d d'
      → ltb now result.session.expires_at ≡ true
      → (find_session result.session.session_id now d' ≡ some (session_of result))
        × (result.user.tenant_id ≡ tenant_id)
  after_login W tenant_id email time now result hash d d' keyed f o live =
      let (u, fu, k, x) = find_login-some W tenant_id email d result.user hash f in
      let (r, fr, e) = with_role-some d u result.user k in
      let (m, t) = find-mem (is_login W tenant_id email) d.users u fu in
      let own : u.user_id ≡ result.session.user_id =
        ap (λ (v : User). v.user_id) e ∙ sym o.of_user in
      (
        find_session-inserted result now d d' u r o.inserted live
              (subst (λ (id : String). find (λ (v : UserRow). v.user_id =? id) d.users ≡ some u) own
                (mem-All
                  (λ (w : UserRow). find (λ (v : UserRow). v.user_id =? w.user_id) d.users ≡ some w)
                  u d.users m keyed))
              fr
            ∙ ap some (cc (e, o.of_user)),
        sym (ap (λ (v : User). v.tenant_id) e)
            ∙ (eq_iff u.tenant_id tenant_id).0 (and_true _ _ t).0,
      )

module _ {B : Type 0} (P : Platform B) (W : Passwords) where
  -- If `Login` succeeds on tables in which a row of `users` is the only one with its id, then the
  -- session that it returns ends eight hours after the clock's reading, belongs to the tenant of
  -- the input, and at any time before it ends `GetSession` of the queue service finds it, with the
  -- same user, tenant and role.
  pub login-find_session :
      (input : LoginInput) (s : State B) (result : LoginResult) (s' : State B) (now : ℕ)
      → HasKeyedUsers s.db
      → login P W input s ≡ (value result, s')
      → now < result.session.expires_at
      → (result.session.expires_at ≡ P.clock (s.tick + 1 + 1 + 1) + eight_hours)
        × (result.user.tenant_id ≡ input.tenant_id)
        × (find_session result.session.session_id now s'.db ≡ some (session_of result))
  login-find_session input s result s' now keyed h live =
      let (p, o) = (login-Opened P W input s).at result s' h in
      let (found, tenant) =
        after_login W input.tenant_id input.email _ now result p.hash s.db s'.db keyed p.found o
          (ground (arith, live)) in
      (o.expires_at, tenant, found)
