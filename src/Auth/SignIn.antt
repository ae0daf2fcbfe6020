-- ===== src/Auth/SignIn.antt =====
-- services/auth-service/internal/store/postgres/store.go: what a sign-in that succeeds has read and
-- written.
use qms.Base.{
  ℕ, ◌+◌, String, not, ◌&&◌, ◌=?◌, true, false, some, List, ◌≡◌, refl, sym, ap, ◌∙◌, any, arith,
  subst,
}
use qms.Queue.Db.{Db, SessionRow}
use qms.Queue.Accounts.{granted_to}
use qms.Queue.Tx.{Platform, State}
use qms.Auth.Run.Values.{
  Yields, Yields-pure, Yields-bind, Yields-stop_if, Yields-or_stop, Yields-statement, Yields-query,
  Yields-now, Yields-new_uuid,
}
use qms.Auth.Rows.{
  other, User, Session, LoginInput, LoginResult, Passwords, find_login, insert_session,
}
use qms.Auth.Store.{get_access, create_session, open_session, login, eight_hours}

abbrev pub row_of : Session → SessionRow
row_of s = record { session_id = s.session_id; user_id = s.user_id; expires_at = s.expires_at }

-- What a result says of the tables `d` that it was read from at `time`, and of those `d'` that it
-- leaves.
pub record Opened {B : Type 0} (time : ℕ) (result : LoginResult) (d d' : Db B) : Type 0 where
  pub expires_at : result.session.expires_at ≡ time + eight_hours
  pub of_user : result.session.user_id ≡ result.user.user_id
  pub branches : result.branches ≡ granted_to result.user.user_id d.user_branch_access
  pub services : result.services ≡ granted_to result.user.user_id d.user_service_access
  pub inserted : insert_session (row_of result.session) d ≡ some (tt, d')

-- What `Login` has checked of the input.
pub record Permitted {B : Type 0} (W : Passwords) (input : LoginInput) (user : User) (d : Db B)
    : Type 0 where
  pub hash : String
  pub found : find_login W input.tenant_id input.email d ≡ some (user, hash)
  pub compared : W.compare_hash_and_password hash input.password ≡ true
  pub allowed :
      (not (input.branch_id =? "")
        && not (any (λ b. b =? input.branch_id) (granted_to user.user_id d.user_branch_access)))
      ≡ false

module _ {B : Type 0} (P : Platform B) where
  pub Yields-get_access :
      {Q : List String × List String → State B → Type 0} (id : String) (s : State B)
      → Q
          (granted_to id s.db.user_branch_access, granted_to id s.db.user_service_access)
          (record { db = s.db; tick = s.tick + 1 + 1 })
      → Yields (get_access P id) s Q
  unfolding get_access
  Yields-get_access id s q =
      Yields-bind _ _ s (
        Yields-query P other _ s (Yields-bind _ _ _ (Yields-query P other _ _ (Yields-pure _ _ q))))

  pub Yields-open_session :
      {Q : LoginResult → State B → Type 0} (user : User) (branches services : List String)
      (s : State B)
      → ((r : LoginResult) (d : Db B) (n : ℕ)
          → r.user ≡ user
          → r.branches ≡ branches
          → r.services ≡ services
          → r.session.user_id ≡ user.user_id
          → r.session.expires_at ≡ P.clock s.tick + eight_hours
          → insert_session (row_of r.session) s.db ≡ some (tt, d)
          → Q r (record { db = d; tick = n }))
      → Yields (open_session P user branches services) s Q
  unfolding open_session create_session
  Yields-open_session user branches services s q = Yields-bind _ _ s (
      Yields-now P other s (
        Yields-bind _ _ _ (
          Yields-bind _ _ _ (
            Yields-new_uuid P other _ (
              Yields-bind _ _ _ (
                Yields-statement P other _ _ λ u d h.
                  Yields-pure _ _ (Yields-pure _ _ (q _ d _ refl refl refl refl refl h))))))))

  -- What the end of both ways in does: access and session.
  pub Yields-opened :
      {Q : LoginResult → State B → Type 0} (user : User) (b v : List String) (s : State B)
      (e : b ≡ granted_to user.user_id s.db.user_branch_access)
      (k : v ≡ granted_to user.user_id s.db.user_service_access)
      → ((r : LoginResult) (s' : State B)
          → r.user ≡ user
          → Opened (P.clock s.tick) r s.db s'.db
          → Q r s')
      → Yields (open_session P user b v) s Q
  Yields-opened user b v s e k q = Yields-open_session user b v s λ r d n u rb rs o x i.
      q r (record { db = d; tick = n }) u
        (record {
          expires_at = x;
          of_user = o ∙ ap (λ (w : User). w.user_id) (sym u);
          branches = cc;
          services = cc;
          inserted = i;
        })

  permitted :
      (W : Passwords) (input : LoginInput) (user : User) (found : User × String) (d : Db B)
      → user ≡ found.0
      → find_login W input.tenant_id input.email d ≡ some found
      → not (W.compare_hash_and_password found.1 input.password) ≡ false
      → (not (input.branch_id =? "")
          && not
              (any (λ b. b =? input.branch_id) (granted_to found.0.user_id d.user_branch_access)))
        ≡ false
      → Permitted W input user d
  permitted W input user (u, hash) d e f c a = record {
    hash = hash;
    found = cc;
    compared = ground (arith, c);
    allowed =
        subst
          (λ (w : User).
            (not (input.branch_id =? "")
              && not (any (λ b. b =? input.branch_id) (granted_to w.user_id d.user_branch_access)))
            ≡ false)
          (sym e) a;
  }

  pub login-Opened :
      (W : Passwords) (input : LoginInput) (s : State B)
      → Yields (login P W input) s (λ r s'.
        Permitted W input r.user s.db × Opened (P.clock (s.tick + 1 + 1 + 1)) r s.db s'.db)
  unfolding login
  login-Opened W input s = Yields-bind _ _ s (
      Yields-query P other _ s (
        Yields-bind _ _ _ (
          Yields-or_stop _ _ _ λ found f. Yields-bind _ _ _ (
            Yields-stop_if _ _ _ λ c. Yields-bind _ _ _ (
              Yields-get_access found.0.user_id _ (
                Yields-bind _ _ _ (
                  Yields-stop_if _ _ _ λ a.
                    Yields-opened found.0 _ _ _ refl refl
                      λ r s' u o. (permitted W input r.user found s.db u f c a, o))))))))
