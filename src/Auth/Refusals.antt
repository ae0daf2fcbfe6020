-- ===== src/Auth/Refusals.antt =====
-- services/auth-service/internal/store/postgres/store.go: sign-ins that are refused.
use mathlib.Core.List.{Memᴰ}
use qms.Base.{
  ℕ, String, Bool, not, ◌&&◌, ◌=?◌, true, false, none, some, List, ◌≡◌, refl, ap, ◌∙◌, any, find,
  maybe, Bool-cases, inl, inr, find-mem, any-find, and_true, eq_iff, ◌⊎◌,
}
use qms.Queue.Models.{failure}
use qms.Queue.Db.{Db, UserRow, MappingRow}
use qms.Queue.Accounts.{granted_to}
use qms.Queue.Tx.{Platform, State, next_tick, transact, query, statement}
use qms.Auth.Run.{Result, value, ended, ask, submit, ◌>>=◌}
use qms.Auth.Run.Values.{Yields, Yields-query, Yields-statement, Yields-new_uuid}
use qms.Auth.Run.Transactions.{Yields-tx_bind, Yields-or_raise}
use qms.Auth.Run.Failures.{
  Reads, Restores, Reads-pure, Reads-or_stop, Reads-stop_if, Reads-bind, Restores-bind,
  Restores-then_pure, Restores-statement, Reads-query, Reads-now, Reads-new_uuid, transact_undone,
  ended_bind,
}
use qms.Auth.Rows.{
  Error, other, User, LoginInput, LoginResult, Passwords, find_mapped, insert_user, is_login,
  is_mapping, insert_mapping,
}
use qms.Auth.Mapped.{insert_mapped}
use qms.Auth.Store.{get_access, create_session, open_session, login, create_mapped_user, sso_login}
use qms.Auth.SignIn.{Permitted, login-Opened}
use qms.Auth.Accounts.{insert_user-some}
use qms.Auth.Sessions.{find_login-some, with_role-some}

module _ {B : Type 0} (P : Platform B) where
  Reads-get_access : (id : String) → Reads (get_access P id)
  unfolding get_access
  Reads-get_access id =
      Reads-bind _ _ (Reads-query P other _)
        λ b. Reads-bind _ _ (Reads-query P other _) λ v. Reads-pure _

  Restores-open_session : (user : User) (b v : List String) → Restores (open_session P user b v)
  unfolding open_session create_session
  Restores-open_session user b v = Restores-bind _ _ (Reads-now P other) λ now.
      Restores-then_pure _ _ (
        Restores-bind _ _ (Reads-new_uuid P other)
          λ id. Restores-then_pure _ _ (Restores-statement P other _))

  Restores-login : (W : Passwords) (input : LoginInput) → Restores (login P W input)
  unfolding login
  Restores-login W input = Restores-bind _ _ (Reads-query P other _) λ found.
      Restores-bind _ _ (Reads-or_stop _ _) λ user. Restores-bind _ _ (Reads-stop_if _ _) λ c.
        Restores-bind _ _ (Reads-get_access user.0.user_id) λ access.
          Restores-bind _ _ (Reads-stop_if _ _) λ a. Restores-open_session user.0 access.0 access.1

  -- What a sign-in with a password needs, in the terms of the tables.
  pub record MayLogIn (W : Passwords) (input : LoginInput) (d : Db B) : Type 0 where
    pub user : UserRow
    pub listed : Memᴰ user d.users
    pub of_tenant : user.tenant_id ≡ input.tenant_id
    pub of_email : W.lower user.email ≡ W.lower input.email
    pub active : user.active ≡ true
    pub compared : W.compare_hash_and_password user.password_hash input.password ≡ true
    pub of_branch :
        (input.branch_id ≡ "")
        ⊎ (any (λ b. b =? input.branch_id) (granted_to user.user_id d.user_branch_access) ≡ true)

  branch_allowed :
      (id : String) (listed : Bool)
      → (not (id =? "") && not listed) ≡ false
      → (id ≡ "") ⊎ (listed ≡ true)
  branch_allowed id true h = inr refl
  branch_allowed id false h = elim (Bool-cases (id =? "")) [
    | inl e ↦ inl ((eq_iff id "").0 e)
    | inr e ↦ absurd (cc (rw e at h))
  ]

  Permitted-MayLogIn :
      (W : Passwords) (input : LoginInput) (user : User) (d : Db B)
      → Permitted W input user d
      → MayLogIn W input d
  Permitted-MayLogIn W input user d p =
      let (u, f, k, x) = find_login-some W input.tenant_id input.email d user p.hash p.found in
      let (r, fr, e) = with_role-some d u user k in
      let (m, t) = find-mem (is_login W input.tenant_id input.email) d.users u f in
      let (t1, t2) = and_true _ _ t in
      let (t3, t4) = and_true _ _ t2 in
      record {
        user = u;
        listed = m;
        of_tenant = (eq_iff u.tenant_id input.tenant_id).0 t1;
        of_email = (eq_iff (W.lower u.email) (W.lower input.email)).0 t3;
        active = t4;
        compared = rw x p.compared;
        of_branch =
            branch_allowed input.branch_id _ (rw (ap (λ (w : User). w.user_id) e) p.allowed);
      }

  -- What is known of the tables after `Login` has ended.
  abbrev pub LoginOutcome : Passwords → LoginInput → Db B → Db B → Result Error LoginResult → Type 0
  LoginOutcome W input d d' (value result) = MayLogIn W input d
  LoginOutcome W input d d' (ended e) = d' ≡ d

  -- However `Login` ends: if it succeeds, there is a row of `users` of the input's tenant, with the
  -- input's email but for its case, that is active, whose hash agrees with the password, and to
  -- which the branch of the input, if it names one, is granted; and if it is refused, for whatever
  -- reason, the tables are as they were.
  pub login_guarded :
      (W : Passwords) (input : LoginInput) (s : State B) (outcome : Result Error LoginResult)
      (s' : State B)
      → login P W input s ≡ (outcome, s')
      → LoginOutcome W input s.db s'.db outcome
  login_guarded W input s (value result) s' h =
      Permitted-MayLogIn W input result.user s.db ((login-Opened P W input s).at result s' h).0
  login_guarded W input s (ended e) s' h = (Restores-login W input).at s e s' h

  taken_mapping :
      (m : MappingRow) (row : MappingRow) (d : Db B)
      → find (is_mapping row.tenant_id row.provider row.subject) d.user_idp_mappings ≡ some m
      → insert_mapping row d ≡ none
  unfolding insert_mapping
  taken_mapping m row d h =
      elim (Bool-cases
        (any (λ (x : MappingRow). x.mapping_id =? row.mapping_id) d.user_idp_mappings)) [
          | inl e ↦ rw e refl
          | inr e ↦
              rw
                (
                  e,
                  any-find (is_mapping row.tenant_id row.provider row.subject) d.user_idp_mappings m
                      h,
                )
                refl
        ]

  untaken :
      (m row : MappingRow) (d d' : Db B)
      → find (is_mapping row.tenant_id row.provider row.subject) d.user_idp_mappings ≡ some m
      → insert_mapping row d ≡ some (tt, d')
      → ⊥
  untaken m row d d' h k = absurd (cc (k, taken_mapping m row d h))

  mappings_kept :
      (p : MappingRow → Bool) (m : MappingRow) (row : UserRow) (d d1 : Db B)
      → insert_user row d ≡ some (tt, d1)
      → find p d.user_idp_mappings ≡ some m
      → find p d1.user_idp_mappings ≡ some m
  mappings_kept p m row d d1 h k =
      ap (λ (x : Db B). find p x.user_idp_mappings) (insert_user-some row d d1 h).1 ∙ k

  module _ (tenant_id provider subject email : String) (m : MappingRow) where
    never_mapped :
        (began : ℕ) (s : State B)
        → find (is_mapping tenant_id provider subject) s.db.user_idp_mappings ≡ some m
        → Yields (ask other (insert_mapped P tenant_id provider subject email began)) s (λ _ _. ⊥)
    unfolding insert_mapped
    never_mapped began s h = Yields-tx_bind P other _ _ s (
        Yields-query P other _ s (
          Yields-tx_bind P other _ _ _ (
            Yields-or_raise P other _ _ _ λ role fr. Yields-tx_bind P other _ _ _ (
              Yields-new_uuid P other _ (
                Yields-tx_bind P other _ _ _ (
                  Yields-statement P other _ _ λ u d1 hu. Yields-tx_bind P other _ _ _ (
                    Yields-new_uuid P other _ (
                      Yields-tx_bind P other _ _ _ (
                        Yields-statement P other _ _ λ v d2 hm.
                          absurd (untaken m _ d1 d2 (mappings_kept _ m _ s.db d1 hu h) hm))))))))))

    not_found :
        (d : Db B)
        → find (is_mapping tenant_id provider subject) d.user_idp_mappings ≡ some m
        → find (λ (u : UserRow). u.user_id =? m.user_id && u.active) d.users ≡ none
        → find_mapped tenant_id provider subject d ≡ none
    unfolding find_mapped maybe
    not_found d h k = rw (h, k) refl

    not_created :
        (s : State B)
        → find (is_mapping tenant_id provider subject) s.db.user_idp_mappings ≡ some m
        → (e : Error) × (s' : State B) × (create_mapped_user P tenant_id provider subject email s
            ≡ (ended e, s'))
          × (s'.db ≡ s.db)
    unfolding create_mapped_user submit
    not_created s h =
        let (e, q, k) =
          transact_undone P other
            (insert_mapped P tenant_id provider subject email (P.clock s.tick)) s
            (never_mapped (P.clock s.tick) (next_tick s) h) in
        let begun = λ (t : State B).
          transact P (insert_mapped P tenant_id provider subject email (P.clock t.tick)) t in
        (e, (submit other begun s).1, ended_bind (submit other begun) _ e s q, k)

    -- If the tenant has a mapping of the subject, but no active user has the id that the mapping
    -- names, then `SSOLogin` is refused, and the tables are as they were: neither a session nor a
    -- second account is made.
    pub sso_login_inactive :
        (s : State B)
        → find (is_mapping tenant_id provider subject) s.db.user_idp_mappings ≡ some m
        → find (λ (u : UserRow). u.user_id =? m.user_id && u.active) s.db.users ≡ none
        → (e : Error) × (s' : State B) × (sso_login P tenant_id provider subject email s
            ≡ (ended e, s'))
          × (s'.db ≡ s.db)
    unfolding sso_login ◌>>=◌ ask query statement
    sso_login_inactive s h k = elim (Bool-cases (P.fails s.tick)) [
      | inl b ↦ (other failure, next_tick s, rw b refl, refl)
      | inr b ↦
          let (e, s', r, q) = not_created (next_tick s) h in
          (e, s', rw (b, not_found s.db h k) r, q)
    ]
