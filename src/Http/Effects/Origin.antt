-- ===== src/Http/Effects/Origin.antt =====
-- services/queue-service/internal/httpapi/auth.go: `AuthMiddleware`, and what it reads from the
-- database that it finds.
use qms.Base.{
  ℕ, ◌≤◌, ◌=?◌, arith, String, Bool, true, false, Option, none, some, List, ◌≡◌, refl, sym, subst,
  if◌then◌else◌, Bool-cases, inl, inr,
}
use qms.Queue.Models.{Error, failure, session_not_found}
use qms.Queue.Db.{Db}
use qms.Queue.Tx
use qms.Queue.Tx.{
  Platform, State, Tx, Outcome, ok, raised, left, Answer, answered, refused, next_tick, finish,
  statement, query, or_raise,
}
use qms.Queue.Accounts.{Session, find_session, granted_to, get_session, get_access}
use qms.Http.Messages.{HttpRequest, Parsers, Response, write_error}
use qms.Http.Web.{
  Web, Step, go, reply, answer_of, pure, respond, ask, ◌>>=◌, continue, stop_if, ◌>>◌,
}
use qms.Http.Auth.{
  AuthInfo, is_public_endpoint, session_id_from_request, or_unauthorized, with_access, authenticate,
}

abbrev Got : {A : Type 0} → (A → Type 0) → Outcome A → Type 0
Got R (ok a) = R a
Got R _ = Unit {0}

abbrev OnAnswer : {A : Type 0} → (A → Type 0) → Answer A → Type 0
OnAnswer R (answered a) = R a
OnAnswer R (refused e) = Unit {0}

-- The transaction reads `R` from the database `d` and leaves it alone.
record Reads {B A : Type 0} (d : Db B) (R : A → Type 0) (m : Tx B A) : Type 0 where
  at : (s : State B) → s.db ≡ d → ((m s).1.db ≡ d) × Got R (m s).0

abbrev pub Passed : {B A : Type 0} → (A → Type 0) → Step B A → Type 0
Passed R (go a) = R a
Passed R (reply r) = 400 ≤ r.status

-- The middleware answers with an error, or goes on with `R` of the database `d` and leaves it alone.
record From {B A : Type 0} (d : Db B) (R : A → Type 0) (m : Web B A) : Type 0 where
  at : (s : State B) → s.db ≡ d → ((m s).1.db ≡ d) × Passed R (m s).0

module _ {B : Type 0} (P : Platform B) (d : Db B) where
  Got-finish :
      {A : Type 0} (R : A → Type 0) (fails : Bool) (a : A) (s : State B)
      → s.db ≡ d
      → R a
      → let x = if fails then (raised failure, next_tick s) else finish P (some (a, s.db)) s in
        (x.1.db ≡ d) × Got R x.0
  Got-finish R true a s q h = (q, tt)
  Got-finish R false a s q h = (q, h)

  Reads-statement :
      {A : Type 0} (R : A → Type 0) (f : ℕ → Db B → A)
      → ((t : ℕ) → R (f t d))
      → Reads d R (statement P (λ t e. some (f t e, e)))
  unfolding statement
  Reads-statement R f h = record {
    at = λ s q.
        Got-finish R (P.fails s.tick) (f s.tick s.db) s q
          (subst (λ (e : Db B). R (f s.tick e)) (sym q) (h s.tick));
  }

  Reads-query : {A : Type 0} (R : A → Type 0) (f : Db B → A) → R (f d) → Reads d R (query P f)
  unfolding query
  Reads-query R f h = Reads-statement R (λ t e. f e) (λ t. h)

module _ {B : Type 0} (d : Db B) where
  Reads-pure : {A : Type 0} (R : A → Type 0) (a : A) → R a → Reads d R (Tx.pure a)
  unfolding Tx.pure
  Reads-pure R a h = record { at = λ s q. (q, h) }

  Reads-or_raise :
      {A : Type 0} (R : A → Type 0) (o : Option A) (e : Error)
      → ((a : A) → o ≡ some a → R a)
      → Reads d R (or_raise o e)
  unfolding Tx.pure Tx.raise
  Reads-or_raise R none e h = record { at = λ s q. (q, tt) }
  Reads-or_raise R (some a) e h = record { at = λ s q. (q, h a refl) }

  Reads-continue :
      {A C : Type 0} (S : A → Type 0) (R : C → Type 0) (x : Outcome A) (f : A → Tx B C)
      (s : State B)
      → s.db ≡ d
      → Got S x
      → ((a : A) → S a → Reads d R (f a))
      → ((Tx.continue x f s).1.db ≡ d) × Got R (Tx.continue x f s).0
  Reads-continue S R (ok a) f s q p h = (h a p).at s q
  Reads-continue S R (raised e) f s q p h = (q, tt)
  Reads-continue S R (left e) f s q p h = (q, tt)

  Reads-bind :
      {A C : Type 0} (S : A → Type 0) (R : C → Type 0) (m : Tx B A) (f : A → Tx B C)
      → Reads d S m
      → ((a : A) → S a → Reads d R (f a))
      → Reads d R (Tx.◌>>=◌ m f)
  unfolding Tx.◌>>=◌
  Reads-bind S R m f rm h = record {
    at = λ s q. let (same, p) = rm.at s q in Reads-continue S R (m s).0 f (m s).1 same p h;
  }

module _ {B : Type 0} (d : Db B) where
  From-pure : {A : Type 0} (R : A → Type 0) (a : A) → R a → From d R (pure a)
  unfolding pure
  From-pure R a h = record { at = λ s q. (q, h) }

  From-respond :
      {A : Type 0} (R : A → Type 0) (r : Response B) → 400 ≤ r.status → From d R (respond r)
  unfolding respond
  From-respond R r h = record { at = λ s q. (q, h) }

  From-if :
      {A : Type 0} (R : A → Type 0) (b : Bool) (m n : Web B A)
      → (b ≡ true → From d R m)
      → (b ≡ false → From d R n)
      → From d R (if b then m else n)
  From-if R true m n fm fn = fm refl
  From-if R false m n fm fn = fn refl

  OnAnswer-answer_of :
      {A : Type 0} (R : A → Type 0) (x : Outcome A) → Got R x → OnAnswer R (answer_of x)
  OnAnswer-answer_of R (ok a) h = h
  OnAnswer-answer_of R (raised e) h = tt
  OnAnswer-answer_of R (left e) h = tt

  From-ask : {A : Type 0} (R : A → Type 0) (m : Tx B A) → Reads d R m → From d (OnAnswer R) (ask m)
  unfolding ask
  From-ask R m h = record {
    at = λ s q. let (same, p) = h.at s q in (same, OnAnswer-answer_of R (m s).0 p);
  }

  From-continue :
      {A C : Type 0} (S : A → Type 0) (R : C → Type 0) (x : Step B A) (f : A → Web B C)
      (s : State B)
      → s.db ≡ d
      → Passed S x
      → ((a : A) → S a → From d R (f a))
      → ((continue x f s).1.db ≡ d) × Passed R (continue x f s).0
  From-continue S R (go a) f s q p h = (h a p).at s q
  From-continue S R (reply r) f s q p h = (q, p)

  From-bind :
      {A C : Type 0} (S : A → Type 0) (R : C → Type 0) (m : Web B A) (f : A → Web B C)
      → From d S m
      → ((a : A) → S a → From d R (f a))
      → From d R (m >>= f)
  unfolding ◌>>=◌
  From-bind S R m f fm h = record {
    at = λ s q. let (same, p) = fm.at s q in From-continue S R (m s).0 f (m s).1 same p h;
  }

  From-stop :
      {C : Type 0} (R : C → Type 0) (bad : Bool) (r : Response B) (f : Unit {0} → Web B C)
      → 400 ≤ r.status
      → From d R (f tt)
      → From d R (stop_if bad r >>= f)
  From-stop R bad r f h ff =
      From-bind (λ u. Unit {0}) R _ f
        (From-if _ bad _ _ (λ b. From-respond _ r h) (λ g. From-pure _ tt tt)) λ u _. ff

-- The session is found at the given time, and its lists are those of its user.
abbrev pub IsSession : {B : Type 0} → Db B → String → ℕ → Session → Type 0
IsSession d id time session = find_session id time d ≡ some session

abbrev pub IsOfSession : {B : Type 0} → Db B → String → ℕ → AuthInfo → Type 0
IsOfSession d id time i =
    IsSession d id time i.session
    × (i.branches ≡ granted_to i.session.user_id d.user_branch_access)
    × (i.services ≡ granted_to i.session.user_id d.user_service_access)

-- The middleware, started in the state `s`.
pub record At {B A : Type 0} (s : State B) (R : A → Type 0) (m : Web B A) : Type 0 where
  pub here : ((m s).1.db ≡ s.db) × Passed R (m s).0

module _ {B : Type 0} (s : State B) where
  At-if :
      {A : Type 0} (R : A → Type 0) (b : Bool) (m n : Web B A)
      → (b ≡ true → At s R m)
      → (b ≡ false → At s R n)
      → At s R (if b then m else n)
  At-if R true m n h k = h refl
  At-if R false m n h k = k refl

  At-stop :
      {C : Type 0} (R : C → Type 0) (bad : Bool) (r : Response B) (f : Unit {0} → Web B C)
      → 400 ≤ r.status
      → At s R (f tt)
      → At s R (stop_if bad r >>= f)
  unfolding ◌>>=◌ pure respond
  At-stop R true r f h k = record { here = (refl, h) }
  At-stop R false r f h k = k

  At-bind :
      {A C : Type 0} (S : A → Type 0) (R : C → Type 0) (m : Web B A) (f : A → Web B C)
      → At s S m
      → ((a : A) → S a → From s.db R (f a))
      → At s R (m >>= f)
  unfolding ◌>>=◌
  At-bind S R m f am h = record {
    here = From-continue s.db S R (m s).0 f (m s).1 am.here.0 am.here.1 h;
  }

module _ {B : Type 0} (P : Platform B) where
  or_raise-OnAnswer :
      (d : Db B) (id : String) (time : ℕ) (e : Error) (o : Option Session) (s : State B)
      → find_session id time d ≡ o
      → s.db ≡ d
      → let x = or_raise o e s in (x.1.db ≡ d) × OnAnswer (IsSession d id time) (answer_of x.0)
  unfolding Tx.pure Tx.raise
  or_raise-OnAnswer d id time e none s h q = (q, tt)
  or_raise-OnAnswer d id time e (some a) s h q = (q, h)

  -- `NOW()` is the clock at the statement.
  At-get_session :
      (s : State B) (id : String)
      → At s (OnAnswer (IsSession s.db id (P.clock s.tick))) (ask (get_session P id))
  unfolding ask get_session statement Tx.◌>>=◌
  At-get_session s id = elim (Bool-cases (P.fails s.tick)) [
    | inl t ↦ record { here = rw t (refl, tt) }
    | inr t ↦ record { here = rw t (or_raise-OnAnswer s.db id (P.clock s.tick) _ _ _ refl refl) }
  ]

module _ {B : Type 0} (P : Platform B) (T : Parsers) (r : HttpRequest) (d : Db B) (time : ℕ) where
  -- Without a session only a public endpoint is reached.
  abbrev pub IsAuthenticated : Option AuthInfo → Type 0
  IsAuthenticated none = is_public_endpoint r ≡ true
  IsAuthenticated (some i) = IsOfSession d (session_id_from_request P T r) time i

  abbrev IsGrantedLists : String → List String × List String → Type 0
  IsGrantedLists user lists =
      (lists.0 ≡ granted_to user d.user_branch_access)
      × (lists.1 ≡ granted_to user d.user_service_access)

  Reads-get_access : (user : String) → Reads d (IsGrantedLists user) (get_access P user)
  unfolding get_access
  Reads-get_access user =
      Reads-bind d _ _ _ _ (Reads-query P d (λ l. l ≡ granted_to user d.user_branch_access) _ refl)
        λ b bq.
          Reads-bind d _ _ _ _
            (Reads-query P d (λ l. l ≡ granted_to user d.user_service_access) _ refl)
            λ v vq. Reads-pure d _ _ (bq, vq)

  From-or_unauthorized :
      (id : String) (a : Answer Session)
      → OnAnswer (IsSession d id time) a
      → From d (IsSession d id time) (or_unauthorized P T r a)
  unfolding write_error
  From-or_unauthorized id (answered s) h = From-pure d _ s h
  From-or_unauthorized id (refused session_not_found) h = From-respond d _ _ (omega arith)
  From-or_unauthorized id (refused e) h = From-respond d _ _ (omega arith)

  From-with_access :
      (session : Session) (a : Answer (List String × List String))
      → IsSession d (session_id_from_request P T r) time session
      → OnAnswer (IsGrantedLists session.user_id) a
      → From d IsAuthenticated (with_access P T r session a)
  unfolding write_error
  From-with_access session (answered (b, v)) live h = From-pure d _ _ (live, h.0, h.1)
  From-with_access session (refused e) live h = From-respond d _ _ (omega arith)

-- The middleware goes on with a session that is live at the clock's reading.
module _ {B : Type 0} (P : Platform B) (T : Parsers) (r : HttpRequest) (s : State B) where
  pub At-authenticate : At s (IsAuthenticated P T r s.db (P.clock s.tick)) (authenticate P T r)
  unfolding authenticate write_error
  At-authenticate =
      let time = P.clock s.tick in
      let id = session_id_from_request P T r in
      let R = IsAuthenticated P T r s.db time in
      let missing =
        write_error {B = B} (P.trim_space (r.header "X-Request-ID")) 401 "unauthorized"
          "missing session" in
      At-if s R (is_public_endpoint r) (pure none)
        (stop_if (id =? "") missing
          >> (ask (get_session P id) >>= λ found. or_unauthorized P T r found >>= λ session.
              ask (get_access P session.user_id) >>= λ access. with_access P T r session access))
        (λ public. record { here = (From-pure s.db R none public).at s refl })
        λ private. At-stop s R (id =? "") missing _ (omega arith) (
          At-bind s _ _ _ _ (At-get_session P s _) λ found live.
            From-bind s.db _ _ _ _ (From-or_unauthorized P T r s.db time _ found live)
              λ session is_live.
                From-bind s.db _ _ _ _ (From-ask s.db _ _ (Reads-get_access P T r s.db time _))
                  λ access lists. From-with_access P T r s.db time session access is_live lists)
