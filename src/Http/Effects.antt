-- ===== src/Http/Effects.antt =====
-- services/queue-service/internal/httpapi: what a handler may do to the database.
pub mod Queries
pub mod Yields
pub mod Admitted
pub mod Handlers
pub mod Origin
pub mod Granted
pub mod Runs
use qms.Base.{
  String, Bool, true, false, Option, none, some, List, ◌≡◌, refl, sym, ◌∙◌, ◌⊎◌, inl, inr,
  if◌then◌else◌, maybe,
}
use qms.Queue.Models.{CreateTicketInput, CallNextInput, TicketActionInput}
use qms.Queue.Db.{Db}
use qms.Queue.Tx.{Platform, State, Tx, Done, Answer, answered, refused}
use qms.Queue.Tx.Keeps.{Keeps}
use qms.Queue.Operations.{Config}
use qms.Queue.Service.{
  TicketRequest, Request, create, check_in, act, sweep, call, start, complete, cancel, hold, unhold,
  recall, transfer, no_show, serve,
}
use qms.Http.Messages.{Response}
use qms.Http.Web.{
  Web, Step, go, reply, pure, respond, ask, submit, ◌>>=◌, continue, stop_if, or_map_error, now,
}

-- The handler leaves the database alone.
pub record Idle {B A : Type 0} (m : Web B A) : Type 0 where
  pub at : (s : State B) → (m s).1.db ≡ s.db

module _ {B A : Type 0} where
  pub Idle-pure : (a : A) → Idle (pure {B = B} a)
  unfolding pure
  Idle-pure a = record { at = λ s. refl }

  pub Idle-respond : (r : Response B) → Idle (respond {A = A} r)
  unfolding respond
  Idle-respond r = record { at = λ s. refl }

  pub Idle-if : (b : Bool) (m n : Web B A) → Idle m → Idle n → Idle (if b then m else n)
  Idle-if true m n im jn = im
  Idle-if false m n im jn = jn

  pub Idle-ask : (m : Tx B A) → ((d : Db B) → Keeps (λ d'. d' ≡ d) m) → Idle (ask m)
  unfolding ask
  Idle-ask m k = record { at = λ s. (k s.db).at s refl }

  pub Idle-maybe {ℓ} :
      {X : Type ℓ} (o : Option X) (m : Web B A) (f : X → Web B A)
      → Idle m
      → ((x : X) → Idle (f x))
      → Idle (maybe o m f)
  unfolding maybe
  Idle-maybe none m f im h = im
  Idle-maybe (some x) m f im h = h x

pub Idle-now : {B : Type 0} (P : Platform B) → Idle (now P)
unfolding now
Idle-now P = record { at = λ s. refl }

module _ {B A C : Type 0} where
  Idle-continue :
      (x : Step B A) (f : A → Web B C) (s : State B)
      → ((a : A) → Idle (f a))
      → (continue x f s).1.db ≡ s.db
  Idle-continue (go a) f s h = (h a).at s
  Idle-continue (reply r) f s h = refl

  pub Idle-bind : (m : Web B A) (f : A → Web B C) → Idle m → ((a : A) → Idle (f a)) → Idle (m >>= f)
  unfolding ◌>>=◌
  Idle-bind m f im h = record { at = λ s. let (x, s') = m s in Idle-continue x f s' h ∙ im.at s }

pub Idle-or_map_error :
    {B A : Type 0} (id : String) (a : Answer A) → Idle (or_map_error {B = B} id a)
Idle-or_map_error id (answered a) = Idle-pure a
Idle-or_map_error id (refused e) = Idle-respond _

-- The database after it is that after one request to the store, or unchanged. `Q` says of the
-- request whether the handler may make it.
abbrev pub Effect : {B : Type 0} → Platform B → Config → (Request → Type 0) → Db B → Db B → Type 0
Effect {B} P c Q d d' =
    (d' ≡ d) ⊎ ((q : Request) × (s : State B) × (s.db ≡ d) × Q q × ((serve P c q s).db ≡ d'))

module _ {B : Type 0} (P : Platform B) (c : Config) (Q : Request → Type 0) where
  pub record AtMostOne {A : Type 0} (m : Web B A) : Type 0 where
    pub at : (s : State B) → Effect P c Q s.db (m s).1.db

  pub AtMostOne-Idle : {A : Type 0} (m : Web B A) → Idle m → AtMostOne m
  AtMostOne-Idle m im = record { at = λ s. inl (im.at s) }

  pub moved : (d d' e : Db B) → d' ≡ d → Effect P c Q d' e → Effect P c Q d e
  moved d d' e p (inl q) = inl (q ∙ p)
  moved d d' e p (inr (q, s, at, allowed, done)) = inr (q, s, at ∙ p, allowed, done)

  one_continue :
      {A C : Type 0} (x : Step B A) (f : A → Web B C) (s : State B)
      → ((a : A) → AtMostOne (f a))
      → Effect P c Q s.db (continue x f s).1.db
  one_continue (go a) f s h = (h a).at s
  one_continue (reply r) f s h = inl refl

  pub AtMostOne-bind :
      {A C : Type 0} (m : Web B A) (f : A → Web B C)
      → Idle m
      → ((a : A) → AtMostOne (f a))
      → AtMostOne (m >>= f)
  unfolding ◌>>=◌
  AtMostOne-bind m f im h = record {
    at = λ s. let (x, s') = m s in moved s.db s'.db _ (im.at s) (one_continue x f s' h);
  }

  pub AtMostOne-if :
      {A : Type 0} (b : Bool) (m n : Web B A)
      → AtMostOne m
      → AtMostOne n
      → AtMostOne (if b then m else n)
  AtMostOne-if true m n im jn = im
  AtMostOne-if false m n im jn = jn

  -- The one request, after which the handler only answers.
  pub AtMostOne-submit :
      {A C : Type 0} (op : State B → Done B A) (f : Answer A → Web B C) (q : Request)
      → Q q
      → ((s : State B) → serve P c q s ≡ (op s).after)
      → ((a : Answer A) → Idle (f a))
      → AtMostOne (submit op >>= f)
  unfolding submit ◌>>=◌
  AtMostOne-submit op f q allowed same h = record {
    at = λ s. inr (q, s, refl, allowed, rw (same s) (sym ((h (op s).answer).at (op s).after)));
  }

pub ruleset idle_rules =
    (Idle-pure, Idle-respond, Idle-if, Idle-maybe, Idle-now, Idle-bind, Idle-or_map_error)
