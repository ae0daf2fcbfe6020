-- ===== src/Auth/Accounts.antt =====
-- services/auth-service/internal/store/postgres/store.go: the accounts of `SSOLogin`.
use qms.Base.{
  ℕ, String, Bool, ◌&&◌, ◌=?◌, true, false, Option, none, some, [], ◌∷◌, ◌++◌, ◌≡◌, refl, ap, ◌∙◌,
  any, find, maybe, arith, subst, Option-cases, inl, inr, find-mem, find-ne-none, find-append_one,
  find-none_of_any, and_true, eq_refl,
}
use qms.Queue.Db.{Db, SessionRow, UserRow, RoleRow, MappingRow}
use qms.Queue.Tx.{Platform, State, Answer, answered, refused, next_tick, transact}
use qms.Auth.Run.{value, ask, submit}
use qms.Auth.Run.Values.{
  Yields, Yields-bind, Yields-query, Yields-statement, Yields-new_uuid, Yields-map,
}
use qms.Auth.Run.Transactions.{Yields-tx_bind, Yields-tx_pure, Yields-or_raise, Yields-transact}
use qms.Auth.Rows.{
  other, User, LoginResult, find_mapped, insert_user, insert_mapping, insert_session, with_role,
  user_of, is_mapping,
}
use qms.Auth.Mapped.{insert_mapped}
use qms.Auth.Store.{create_mapped_user, or_create, sso_login}
use qms.Auth.SignIn.{Opened, row_of, Yields-get_access, Yields-opened}
use qms.Auth.Sessions.{insert_session-some}

abbrev user_id_of : Answer User → String
user_id_of (answered u) = u.user_id
user_id_of (refused e) = ""

-- The mapping of the subject leads to the account with this id.
pub record IsMapped {B : Type 0} (tenant_id provider subject user_id : String) (d : Db B)
    : Type 0 where
  pub account : User
  pub found : find_mapped tenant_id provider subject d ≡ some account
  pub same_id : account.user_id ≡ user_id

module _ {B : Type 0} where
  pub insert_user-some :
      (row : UserRow) (d d' : Db B)
      → insert_user row d ≡ some (tt, d')
      → (any (λ (u : UserRow). u.user_id =? row.user_id) d.users ≡ false)
        × (d' ≡ record d { users = d.users ++ row ∷ [] })
  unfolding insert_user
  insert_user-some row d d' h = (ground (arith, h), ground (arith, h))

  insert_mapping-some :
      (row : MappingRow) (d d' : Db B)
      → insert_mapping row d ≡ some (tt, d')
      → (any (is_mapping row.tenant_id row.provider row.subject) d.user_idp_mappings ≡ false)
        × (d' ≡ record d { user_idp_mappings = d.user_idp_mappings ++ row ∷ [] })
  unfolding insert_mapping
  insert_mapping-some row d d' h = (ground (arith, h), ground (arith, h))

  with_role-find :
      (d : Db B) (u : UserRow) (p : RoleRow → Bool) (r : RoleRow)
      → find p d.roles ≡ some r
      → r.role_id ≡ u.role_id
      → (v : User) × (with_role d u ≡ some v) × (v.user_id ≡ u.user_id)
  unfolding with_role maybe
  with_role-find d u p r h e =
      elim (Option-cases (find (λ (r : RoleRow). r.role_id =? u.role_id) d.roles)) [
        | inl k ↦ absurd (
            find-ne-none (λ (q : RoleRow). q.role_id =? u.role_id) d.roles r
              (find-mem p d.roles r h).0 (rw e (eq_refl u.role_id)) k)
        | inr (q, k) ↦ (user_of u q, rw k refl, refl)
      ]

  mapping_found :
      (m : MappingRow) (d1 d2 : Db B)
      → any (is_mapping m.tenant_id m.provider m.subject) d1.user_idp_mappings ≡ false
      → d2 ≡ record d1 { user_idp_mappings = d1.user_idp_mappings ++ m ∷ [] }
      → find (is_mapping m.tenant_id m.provider m.subject) d2.user_idp_mappings ≡ some m
  mapping_found m d1 d2 fresh e =
      let p = is_mapping m.tenant_id m.provider m.subject in
      ap (λ (x : Db B). find p x.user_idp_mappings) e
      ∙ find-append_one p d1.user_idp_mappings m
          (find-none_of_any p p d1.user_idp_mappings (λ x h. h) fresh) (simp eq_refl refl)

  account_found :
      (row : UserRow) (m : MappingRow) (d d2 : Db B)
      → any (λ (u : UserRow). u.user_id =? row.user_id) d.users ≡ false
      → d2.users ≡ d.users ++ row ∷ []
      → row.active ≡ true
      → m.user_id ≡ row.user_id
      → find (λ (u : UserRow). u.user_id =? m.user_id && u.active) d2.users ≡ some row
  account_found row m d d2 fresh e act em =
      rw (e, em)
        (find-append_one (λ (u : UserRow). u.user_id =? row.user_id && u.active) d.users row
          (find-none_of_any (λ (u : UserRow). u.user_id =? row.user_id)
            (λ (u : UserRow). u.user_id =? row.user_id && u.active) d.users
            (λ x h. (and_true _ _ h).0) fresh)
          (rw (act, eq_refl row.user_id) refl))

  -- The two rows that the transaction inserts.
  inserted-IsMapped :
      (row : UserRow) (m : MappingRow) (p : RoleRow → Bool) (r : RoleRow) (d d1 d2 : Db B)
      → find p d.roles ≡ some r
      → r.role_id ≡ row.role_id
      → row.active ≡ true
      → m.user_id ≡ row.user_id
      → insert_user row d ≡ some (tt, d1)
      → insert_mapping m d1 ≡ some (tt, d2)
      → IsMapped m.tenant_id m.provider m.subject row.user_id d2
  unfolding find_mapped maybe
  inserted-IsMapped row m p r d d1 d2 fr er act em hu hm =
      let (fresh_user, e1) = insert_user-some row d d1 hu in
      let (fresh, e2) = insert_mapping-some m d1 d2 hm in
      let roles : d2.roles ≡ d.roles =
        ap (λ (e : Db B). e.roles) e2 ∙ ap (λ (e : Db B). e.roles) e1 in
      let users : d2.users ≡ d.users ++ row ∷ [] =
        ap (λ (e : Db B). e.users) e2 ∙ ap (λ (e : Db B). e.users) e1 in
      let (v, fv, ev) = with_role-find d2 row p r (rw roles fr) er in
      record {
        account = v;
        found =
            rw (mapping_found m d1 d2 fresh e2, account_found row m d d2 fresh_user users act em)
              fv;
        same_id = ev;
      }

  -- Sessions are no part of an account.
  session-IsMapped :
      (tenant_id provider subject user_id : String) (row : SessionRow) (d d' : Db B)
      → insert_session row d ≡ some (tt, d')
      → IsMapped tenant_id provider subject user_id d
      → IsMapped tenant_id provider subject user_id d'
  unfolding find_mapped with_role maybe
  session-IsMapped tenant_id provider subject user_id row d d' h i =
      let (fresh, e) = insert_session-some row d d' h in
      rw e (record { account = i.account; found = i.found; same_id = i.same_id })

module _ {B : Type 0} (P : Platform B) (tenant_id provider subject email : String) where
  insert_mapped-IsMapped :
      (began : ℕ) (s : State B)
      → Yields (ask other (insert_mapped P tenant_id provider subject email began)) s (λ c s'.
        (user : User) → c ≡ answered user → IsMapped tenant_id provider subject user.user_id s'.db)
  unfolding insert_mapped
  insert_mapped-IsMapped began s = Yields-tx_bind P other _ _ s (
      Yields-query P other _ s (
        Yields-tx_bind P other _ _ _ (
          Yields-or_raise P other _ _ _ λ role fr. Yields-tx_bind P other _ _ _ (
            Yields-new_uuid P other _ (
              Yields-tx_bind P other _ _ _ (
                Yields-statement P other _ _ λ u d1 hu. Yields-tx_bind P other _ _ _ (
                  Yields-new_uuid P other _ (
                    Yields-tx_bind P other _ _ _ (
                      Yields-statement P other _ _ λ v d2 hm. Yields-tx_pure P other _ _ λ user e.
                        subst (λ (id : String). IsMapped tenant_id provider subject id d2)
                          (ap (λ (a : Answer User). user_id_of a) e)
                          (inserted-IsMapped _ _ _ role s.db d1 d2 fr refl refl refl hu hm))))))))))

  Opened-IsMapped :
      (time : ℕ) (user : User) (d d' : Db B) (r : LoginResult)
      → r.user ≡ user
      → Opened time r d d'
      → IsMapped tenant_id provider subject user.user_id d
      → IsMapped tenant_id provider subject r.user.user_id d'
  Opened-IsMapped time user d d' r e o i =
      session-IsMapped tenant_id provider subject r.user.user_id (row_of r.session) d d' o.inserted
        (rw e i)

  -- `createMappedUser` reads the clock as its transaction begins.
  Yields-submit_at :
      {Q : User → State B → Type 0} (s : State B)
      → Yields
          (ask other (insert_mapped P tenant_id provider subject email (P.clock s.tick)))
          (next_tick s)
          (λ c s'. (a : User) → c ≡ answered a → Q a (next_tick s'))
      → Yields
          (submit other λ (s : State B).
            transact P (insert_mapped P tenant_id provider subject email (P.clock s.tick)) s)
          s
          Q
  unfolding submit
  Yields-submit_at s y = record { at = (Yields-transact P other _ s y).at }

  create-IsMapped :
      (s : State B)
      → Yields
          (create_mapped_user P tenant_id provider subject email)
          s
          (λ r s'. IsMapped tenant_id provider subject r.user.user_id s'.db)
  unfolding create_mapped_user
  create-IsMapped s = Yields-bind _ _ s (
      Yields-submit_at s (
        Yields-map _ _ (insert_mapped-IsMapped (P.clock s.tick) _) λ c s' f user e.
          Yields-bind _ _ _ (
            Yields-get_access P user.user_id _ (
              Yields-opened P user _ _ _ refl refl
                λ r s'' u o. Opened-IsMapped _ user s'.db s''.db r u o (f user e)))))

  found_or_created :
      (found : Option User) (s : State B)
      → find_mapped tenant_id provider subject s.db ≡ found
      → Yields
          (or_create P (create_mapped_user P tenant_id provider subject email) found)
          s
          (λ r s'. IsMapped tenant_id provider subject r.user.user_id s'.db)
  found_or_created none s h = create-IsMapped s
  found_or_created (some user) s h = Yields-bind _ _ _ (
      Yields-get_access P user.user_id _ (
        Yields-opened P user _ _ _ refl refl λ r s' u o.
          Opened-IsMapped _ user s.db s'.db r u o
            (record { account = user; found = h; same_id = refl })))

  pub sso_login-IsMapped :
      (s : State B)
      → Yields
          (sso_login P tenant_id provider subject email)
          s
          (λ r s'. IsMapped tenant_id provider subject r.user.user_id s'.db)
  unfolding sso_login
  sso_login-IsMapped s = Yields-bind _ _ s (
      Yields-query P other _ s
        (found_or_created (find_mapped tenant_id provider subject s.db) (next_tick s) refl))

  kept_account :
      (user_id : String) (s : State B)
      → IsMapped tenant_id provider subject user_id s.db
      → Yields
          (sso_login P tenant_id provider subject email)
          s
          (λ r s'. (r.user.user_id ≡ user_id) × (s'.db.users ≡ s.db.users))
  unfolding sso_login
  kept_account user_id s i = Yields-bind _ _ s (
      Yields-query P other _ s (
        rw i.found (
          Yields-bind _ _ _ (
            Yields-get_access P i.account.user_id _ (
              Yields-opened P i.account _ _ _ refl refl λ r s' u o. (
                ap (λ (w : User). w.user_id) u ∙ i.same_id,
                ap (λ (e : Db B). e.users)
                    (insert_session-some (row_of r.session) s.db s'.db o.inserted).1,
              ))))))

-- If `SSOLogin` of a subject succeeds, and is then called for the same tenant, provider and subject
-- on the tables that it left, with any email, and succeeds again, then the second result is of the
-- same account as the first, and the second call has created no user.
pub sso_login-again :
    {B : Type 0} (P : Platform B) (tenant_id provider subject email email' : String) (s : State B)
    (r : LoginResult) (s' : State B) (r' : LoginResult) (s'' : State B)
    → sso_login P tenant_id provider subject email s ≡ (value r, s')
    → sso_login P tenant_id provider subject email' s' ≡ (value r', s'')
    → (r'.user.user_id ≡ r.user.user_id) × (s''.db.users ≡ s'.db.users)
sso_login-again P tenant_id provider subject email email' s r s' r' s'' h k =
    (kept_account P tenant_id provider subject email' r.user.user_id s'
        ((sso_login-IsMapped P tenant_id provider subject email s).at r s' h)).at
      r' s'' k
