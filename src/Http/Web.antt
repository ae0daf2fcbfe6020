-- ===== src/Http/Web.antt =====
-- A handler as a chain of steps: each goes on with a value, or writes the response and returns.
use qms.Base.{ℕ, String, Bool, if◌then◌else◌}
use qms.Queue.Tx.{
  Platform, State, Tx, Outcome, ok, raised, left, Answer, answered, refused, Done, next_tick,
}
use qms.Http.Messages.{Response, map_error}

pub data Step (B A : Type 0) : Type 0 where
  go : A → Step B A
  reply : Response B → Step B A

abbrev pub Web : Type 0 → Type 0 → Type 0
Web B A = State B → Step B A × State B

abbrev pub answer_of : {A : Type 0} → Outcome A → Answer A
answer_of (ok a) = answered a
answer_of (raised e) = refused e
answer_of (left e) = refused e

module _ {B A : Type 0} where
  unfoldable pub pure : A → Web B A
  pure a s = (go a, s)

  unfoldable pub respond : Response B → Web B A
  respond r s = (reply r, s)

  -- A call of a method of the store that runs its statements on the pool.
  unfoldable pub ask : Tx B A → Web B (Answer A)
  ask m s = let (r, s') = m s in (go (answer_of r), s')

  -- A call of a method that has its own transaction.
  unfoldable pub submit : (State B → Done B A) → Web B (Answer A)
  submit m s = let r = m s in (go r.answer, r.after)

module _ {B A C : Type 0} where
  abbrev pub continue : Step B A → (A → Web B C) → Web B C
  continue (go a) f s = f a s
  continue (reply r) f s = (reply r, s)

  infixl 5 ◌>>=◌ ◌>>◌
  unfoldable pub ◌>>=◌ : Web B A → (A → Web B C) → Web B C
  ◌>>=◌ m f s = let (r, s') = m s in continue r f s'

  abbrev pub ◌>>◌ : Web B A → Web B C → Web B C
  m >> n = m >>= λ _. n

-- `if bad { …; return }`
abbrev pub stop_if : {B : Type 0} → Bool → Response B → Web B (Unit {0})
stop_if bad r = if bad then respond r else pure tt

-- The common end of the handlers: an error of the store is mapped.
abbrev pub or_map_error : {B A : Type 0} → String → Answer A → Web B A
or_map_error id (answered a) = pure a
or_map_error id (refused e) = respond (map_error id e)

-- `time.Now().UTC()`
unfoldable pub now : {B : Type 0} → Platform B → Web B ℕ
now P s = (go (P.clock s.tick), next_tick s)
