-- ===== src/Realtime/Scope.antt =====
-- services/realtime-service: which events a browser may be sent.
use mathlib.Core.List.{Memᴰ}
use qms.Base.{
  ◌+◌, String, Option, none, some, List, [], ◌∷◌, ◌=?◌, ◌≡◌, refl, inl, inr, All, arith, All-select,
  All-update, Bool-cases, maybe,
}
use qms.Base.Int.{ℤ}
use qms.Queue.Tx.{Platform}
use qms.Queue.Accounts.{Session}
use qms.Http.Messages.{Parsers}
use qms.Realtime.Hub.{
  Access, Client, SubscribeMessage, deliver, register, unregister, parse_subscribe,
}
use qms.Realtime.Polling.{Codec, Server, attempt}
use qms.Realtime.Server.{
  Step, opened, message, delivered, closed, ticked, elsewhere, step, run, hear, connect,
  get_session, session_id_from_request, with_session, with_access,
}
use qms.Realtime.Entry.{IsScoped, access_of, access_of-IsGrantedAccess, Gives, IsGivenIn, HasOrigin}
use qms.Realtime.Kept.{Scoped, length-taken, receive-IsScoped, poll-Scoped}

module _ (R : Access → Type 0) {B : Type 0} (P : Platform B) (T : Parsers) where
  with_access-Scoped :
      (session : Session) (s : Server B)
      → Scoped R s
      → R (access_of P T session s.tables)
      → Scoped R (with_access P T session s)
  unfolding with_access attempt register unregister maybe
  with_access-Scoped session s h given = elim (Bool-cases (P.fails s.tick)) [
    | inl t ↦ record { each = rw t h.each }
    | inr t ↦ elim (Bool-cases (P.fails (s.tick + 1))) [
      | inl u ↦ record { each = rw (t, u) h.each }
      | inr u ↦ record {
        each =
            rw (t, u)
              (
                (omega arith, given, inl refl),
                All-select (IsScoped R) (IsScoped R) _ (λ c k _. k) _ h.each,
              );
      }
    ]
  ]

  with_session-Scoped :
      (o : Option Session) (s : Server B)
      → Scoped R s
      → ((session : Session) → o ≡ some session → R (access_of P T session s.tables))
      → Scoped R (with_session P T (some o) s)
  with_session-Scoped none s h given = h
  with_session-Scoped (some session) s h given = with_access-Scoped session s h (given session refl)

  connect-Scoped :
      (a q : String) (s : Server B)
      → Scoped R s
      → ((x : Access) → Gives P T (opened a q) s x → R x)
      → Scoped R (connect P T a q s)
  unfolding connect get_session attempt
  connect-Scoped a q s h given = elim (Bool-cases (session_id_from_request P T a q =? "")) [
    | inl t ↦ rw t h
    | inr t ↦ elim (Bool-cases (P.fails s.tick)) [
      | inl u ↦ rw (t, u) (record { each = h.each })
      | inr u ↦
          rw (t, u)
            (with_session-Scoped _ _ (record { each = h.each })
              λ session found.
                given (access_of P T session s.tables)
                  (access_of-IsGrantedAccess P T a q s session found))
    ]
  ]

  module _ (K : Codec B) (n : ℤ) where
    hear-IsScoped :
        (id : String) (msg : Option SubscribeMessage) (clients : List Client)
        → All (IsScoped R) clients
        → All (IsScoped R) (hear P T K n id msg clients)
    hear-IsScoped id none clients h = h
    hear-IsScoped id (some msg) clients h = receive-IsScoped R id msg clients h

    step-Scoped :
        (x : Step B) (s : Server B)
        → Scoped R s
        → ((a : Access) → Gives P T x s a → R a)
        → Scoped R (step P T K n x s)
    unfolding step deliver unregister
    step-Scoped (opened a q) s h given = connect-Scoped a q s h given
    step-Scoped (message id msg) s h given = record {
      each = hear-IsScoped id (parse_subscribe msg) s.clients h.each;
    }
    step-Scoped (delivered id) s h given = record {
      each =
          All-update _ _ (IsScoped R) s.clients
            (λ c (few, known, scope). (ground (arith, length-taken c.send, few), known, scope))
            h.each;
    }
    step-Scoped (closed id) s h given = record {
      each = All-select (IsScoped R) (IsScoped R) _ (λ c k _. k) _ h.each;
    }
    step-Scoped ticked s h given = poll-Scoped R P K n s h
    step-Scoped (elsewhere t) s h given = record { each = h.each }

    steps-Scoped :
        (xs : List (Step B)) (s : Server B)
        → Scoped R s
        → ((a : Access) → IsGivenIn P T K n xs s a → R a)
        → Scoped R (run P T K n xs s)
    unfolding run
    steps-Scoped [] s h given = h
    steps-Scoped (x ∷ xs) s h given =
        steps-Scoped xs _ (step-Scoped x s h (λ a g. given a (inl g))) (λ a g. given a (inr g))

from_start :
    {B : Type 0} (P : Platform B) (T : Parsers) (K : Codec B) (n : ℤ) (xs : List (Step B))
    (s : Server B) (clients : List Client)
    → ((c : Client) → Memᴰ c clients → Memᴰ c s.clients)
    → All (IsScoped (λ a. Unit {0})) clients
    → All (IsScoped (HasOrigin P T K n xs s)) clients
from_start P T K n xs s [] members h = tt
from_start P T K n xs s (c ∷ cs) members (h, rest) = (
  (h.0, inl (c, members c (Memᴰ.head refl), refl), h.2),
  from_start P T K n xs s cs (λ x m. members x (Memᴰ.tail m)) rest,
)

-- Whatever browsers connect, ask for and leave, and whatever is polled, in any order and with any
-- failures: a client's channel holds at most 16 messages, and the client has no subscription or one
-- to its session's tenant, with a branch and a service that stand in its lists, where these are not
-- empty, if this was so at the start. Its tenant and lists are those of a client at the start, or
-- were given to a browser that connected in one of the steps, with a session that the tables held and
-- that had not ended by the clock's reading: its user's tenant, and what the rows granted to the user.
pub run-Scoped :
    {B : Type 0} (P : Platform B) (T : Parsers) (K : Codec B) (n : ℤ) (xs : List (Step B))
    (s : Server B)
    → Scoped (λ a. Unit {0}) s
    → Scoped (HasOrigin P T K n xs s) (run P T K n xs s)
run-Scoped P T K n xs s h =
    steps-Scoped (HasOrigin P T K n xs s) P T K n xs s
      (record { each = from_start P T K n xs s s.clients (λ c m. m) h.each }) λ a g. inr g
