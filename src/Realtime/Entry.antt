-- ===== src/Realtime/Entry.antt =====
-- services/realtime-service/cmd/realtime-service/main.go: what the connection of a browser gives it,
-- and what a subscription to it may name, said of the tables.
use mathlib.Core.List.{Memᴰ}
use qms.Base.{
  ◌≤◌, String, Bool, true, false, some, List, [], ◌∷◌, ◌≡◌, refl, sym, ◌=?◌, ◌⊎◌, inl, inr,
  if◌then◌else◌, length, any, and_true, eq_iff, Bool-cases,
}
use qms.Base.Int.{ℤ}
use qms.Queue.Tx.{Platform}
use qms.Queue.Accounts.{Session, find_session, granted_to}
use qms.Queue.Entitled.{IsLive, IsListOf, find_session-IsLive, granted_to-IsListOf}
use qms.Http.Messages.{Parsers}
use qms.Realtime.Hub.{Access, Client, no_subscription}
use qms.Realtime.Sessions.{contains, is_allowed}
use qms.Realtime.Polling.{Tables, Codec, Server}
use qms.Realtime.Server.{
  Step, opened, message, delivered, closed, ticked, elsewhere, step, session_id_from_request,
}

-- A user with an empty list may name anything, also nothing; another one what the list holds.
abbrev pub MayName : List String → String → Type 0
MayName list id = (list ≡ []) ⊎ Memᴰ id list

-- The client's channel is not over-full, its access satisfies `R`, and it has no subscription, or one
-- to the tenant of its session, with a branch and a service that it may name.
abbrev pub IsScoped : (Access → Type 0) → Client → Type 0
IsScoped R c =
    (length c.send ≤ 16)
    × R c.access
    × ((c.subscription ≡ no_subscription)
        ⊎ ((c.subscription.tenant_id ≡ c.access.tenant_id)
            × MayName c.access.branches c.subscription.branch_id
            × MayName c.access.services c.subscription.service_id))

contains-mem : (list : List String) (id : String) → contains list id ≡ true → Memᴰ id list
unfolding any
contains-mem [] id h = absurd (cc (h))
contains-mem (x ∷ xs) id h = elim (Bool-cases (x =? id)) [
  | inl t ↦ Memᴰ.head (sym ((eq_iff x id).0 t))
  | inr t ↦ Memᴰ.tail (contains-mem xs id (rw t at h))
]

named-mem :
    (id : String) (list : List String) (empty : Bool)
    → (if empty then false else contains list id) ≡ true
    → Memᴰ id list
named-mem id list true h = absurd (cc (h))
named-mem id list false h = contains-mem list id h

pub is_allowed-MayName :
    (branch service : String) (branches services : List String)
    → is_allowed branch service branches services ≡ true
    → MayName branches branch × MayName services service
unfolding is_allowed
is_allowed-MayName b v [] [] h = (inl refl, inl refl)
is_allowed-MayName b v [] (y ∷ ys) h = (inl refl, inr (named-mem v (y ∷ ys) (v =? "") h))
is_allowed-MayName b v (x ∷ xs) [] h =
    (inr (named-mem b (x ∷ xs) (b =? "") (and_true _ _ h).0), inl refl)
is_allowed-MayName b v (x ∷ xs) (y ∷ ys) h = (
  inr (named-mem b (x ∷ xs) (b =? "") (and_true _ _ h).0),
  inr (named-mem v (y ∷ ys) (v =? "") (and_true _ _ h).1),
)

module _ {B : Type 0} (P : Platform B) (T : Parsers) where
  -- The access of a browser that connects in the state `s` with these credentials: they name a session
  -- that is live at the clock's reading; the tenant and the lists are those of its user.
  pub record IsGrantedAccess (authorization session_id : String) (s : Server B) (a : Access)
      : Type 0 where
    pub session : Session
    pub is_live :
        IsLive s.tables.db
          (session_id_from_request P T authorization session_id)
          (P.clock s.tick)
          session
    pub is_tenant : a.tenant_id ≡ session.tenant_id
    pub is_branches : IsListOf session.user_id s.tables.db.user_branch_access a.branches
    pub is_services : IsListOf session.user_id s.tables.db.user_service_access a.services

  -- The access that the tables give to a session.
  abbrev pub access_of : Session → Tables B → Access
  access_of session t = record {
    tenant_id = session.tenant_id;
    branches = granted_to session.user_id t.db.user_branch_access;
    services = granted_to session.user_id t.db.user_service_access;
  }

  pub access_of-IsGrantedAccess :
      (authorization session_id : String) (s : Server B) (session : Session)
      → find_session
          (session_id_from_request P T authorization session_id)
          (P.clock s.tick)
          s.tables.db
        ≡ some session
      → IsGrantedAccess authorization session_id s (access_of session s.tables)
  access_of-IsGrantedAccess authorization session_id s session h = record {
    session = session;
    is_live = find_session-IsLive s.tables.db _ _ session h;
    is_tenant = refl;
    is_branches = granted_to-IsListOf session.user_id s.tables.db.user_branch_access;
    is_services = granted_to-IsListOf session.user_id s.tables.db.user_service_access;
  }

  -- The step is the connection of a browser that is given this access.
  abbrev pub Gives : Step B → Server B → Access → Type 0
  Gives (opened authorization session_id) s a = IsGrantedAccess authorization session_id s a
  Gives (message id msg) s a = ⊥
  Gives (delivered id) s a = ⊥
  Gives (closed id) s a = ⊥
  Gives ticked s a = ⊥
  Gives (elsewhere t) s a = ⊥

  module _ (K : Codec B) (batch_size : ℤ) where
    -- One of the steps gives this access, in the state that the steps before it lead to.
    abbrev pub IsGivenIn : List (Step B) → Server B → Access → Type 0
    IsGivenIn [] s a = ⊥
    IsGivenIn (x ∷ xs) s a = Gives x s a ⊎ IsGivenIn xs (step P T K batch_size x s) a

    -- A client had this access at the start, or one of the steps gives it.
    abbrev pub HasOrigin : List (Step B) → Server B → Access → Type 0
    HasOrigin xs s a = ((c : Client) × Memᴰ c s.clients × (c.access ≡ a)) ⊎ IsGivenIn xs s a
