-- ===== src/Auth/Run.antt =====
-- A method of the auth service's store, or a handler: it goes on with values until an error, or a
-- response, ends it. It works on the database of the queue service.
pub mod Values
pub mod Transactions
pub mod Failures
use qms.Base.{Bool, Option, none, some, if◌then◌else◌}
use qms.Queue.Models.{Error}
use qms.Queue.Tx.{State, Tx, Outcome, ok, raised, left, Done, Answer, answered, refused}

pub data Result (E A : Type 0) : Type 0 where
  value : A → Result E A
  ended : E → Result E A

abbrev pub Run : Type 0 → Type 0 → Type 0 → Type 0
Run B E A = State B → Result E A × State B

module _ {B E A : Type 0} where
  unfoldable pub pure : A → Run B E A
  pure a s = (value a, s)

  unfoldable pub stop : E → Run B E A
  stop e s = (ended e, s)

abbrev pub or_stop : {B E A : Type 0} → Option A → E → Run B E A
or_stop none e = stop e
or_stop (some a) e = pure a

-- `if bad { …; return }`
abbrev pub stop_if : {B E : Type 0} → Bool → E → Run B E (Unit {0})
stop_if bad e = if bad then stop e else pure tt

module _ {B E A C : Type 0} where
  abbrev pub continue : Result E A → (A → Run B E C) → Run B E C
  continue (value a) f s = f a s
  continue (ended e) f s = (ended e, s)

  infixl 5 ◌>>=◌ ◌>>◌
  unfoldable pub ◌>>=◌ : Run B E A → (A → Run B E C) → Run B E C
  ◌>>=◌ m f s = let (r, s') = m s in continue r f s'

  abbrev pub ◌>>◌ : Run B E A → Run B E C → Run B E C
  m >> n = m >>= λ _. n

module _ {E F A : Type 0} where
  abbrev pub map_ended : (F → E) → Result F A → Result E A
  map_ended g (value a) = value a
  map_ended g (ended e) = ended (g e)

module _ {B E F A : Type 0} where
  -- A call whose errors are answered by `g`.
  unfoldable pub or_end : (F → E) → Run B F A → Run B E A
  or_end g m s = let (r, s') = m s in (map_ended g r, s')

module _ {E A : Type 0} where
  abbrev pub result_of : (Error → E) → Outcome A → Result E A
  result_of g (ok a) = value a
  result_of g (raised e) = ended (g e)
  result_of g (left e) = ended (g e)

  abbrev pub result_of_answer : (Error → E) → Answer A → Result E A
  result_of_answer g (answered a) = value a
  result_of_answer g (refused e) = ended (g e)

module _ {B E A : Type 0} where
  -- Statements on the pool.
  unfoldable pub ask : (Error → E) → Tx B A → Run B E A
  ask g m s = let (r, s') = m s in (result_of g r, s')

  -- A transaction of its own.
  unfoldable pub submit : (Error → E) → (State B → Done B A) → Run B E A
  submit g m s = let r = m s in (result_of_answer g r.answer, r.after)

module _ {B E F A : Type 0} where
  -- A call whose error is looked at, or passed over.
  unfoldable pub outcome_of : Run B F A → Run B E (Result F A)
  outcome_of m s = let (r, s') = m s in (value r, s')
