-- ===== src/Queue/Tx.antt =====
-- A transaction of the store: a sequence of SQL statements that may fail, and what becomes of it
-- when the Go function that runs it returns. The functions share the frame
--   tx, err := s.pool.BeginTx(…); defer func() { if err != nil { tx.Rollback } }(); …; tx.Commit
-- in which the transaction is rolled back exactly if the variable `err` is set at the return.
pub mod Keeps
pub mod Closes
pub mod Quiet
use qms.Base.{ℕ, ◌+◌, String, Bool, true, false, Option, none, some, if◌then◌else◌}
use qms.Queue.Models.{Error, no_rows, failure}
use qms.Queue.Db.{Db}
use qms.Queue.Payload.{Object, EventPayload}

-- What the store does not implement. The clock, the generator of identifiers, the failures of the
-- database and the locks of other transactions are read by the number of the operation that asks.
-- `jsonb` and `timestamptz` are what columns of these types keep of an encoded payload and of a time:
-- the normal form of JSON, and microseconds.
pub record Platform (B : Type 0) : Type 0 where
  pub clock : ℕ → ℕ
  pub uuid : ℕ → String
  pub fails : ℕ → Bool
  pub locked : ℕ → String → Bool
  pub marshal : Object → Option B
  pub unmarshal : B → Option EventPayload
  pub is_empty : B → Bool
  pub text_of : B → String
  pub format_time : ℕ → String
  pub jsonb : B → B
  pub timestamptz : ℕ → ℕ
  pub sha256_hex : String → String
  pub trim_space : String → String
  pub to_lower : String → String

pub record State (B : Type 0) : Type 0 where
  pub db : Db B
  pub tick : ℕ

-- How a piece of the function ends: with a value, with a return while `err` is set, or with a
-- return of an error while `err` is nil.
pub data Outcome (A : Type 0) : Type 0 where
  ok : A → Outcome A
  raised : Error → Outcome A
  left : Error → Outcome A

abbrev pub Tx : Type 0 → Type 0 → Type 0
Tx B A = State B → Outcome A × State B

abbrev pub shadow : {A : Type 0} → Outcome A → Outcome A
shadow (ok a) = ok a
shadow (raised e) = left e
shadow (left e) = left e

module _ {B A : Type 0} where
  unfoldable pub pure : A → Tx B A
  pure a s = (ok a, s)

  unfoldable pub raise : Error → Tx B A
  raise e s = (raised e, s)

  unfoldable pub leave : Error → Tx B A
  leave e s = (left e, s)

  -- Code under a second `err :=`: its errors never reach the variable that the rollback tests.
  unfoldable pub shadowed : Tx B A → Tx B A
  shadowed m s = let (r, s') = m s in (shadow r, s')

  abbrev pub recover : Outcome A → Tx B A → Tx B A
  recover (ok a) n s = (ok a, s)
  recover (raised no_rows) n s = n s
  recover (raised e) n s = (raised e, s)
  recover (left e) n s = (left e, s)

  -- `m`, and `n` in its place if `m` found no row.
  unfoldable pub or_if_no_rows : Tx B A → Tx B A → Tx B A
  or_if_no_rows m n s = let (r, s') = m s in recover r n s'

module _ {B A C : Type 0} where
  abbrev pub continue : Outcome A → (A → Tx B C) → Tx B C
  continue (ok a) f s = f a s
  continue (raised e) f s = (raised e, s)
  continue (left e) f s = (left e, s)

  infixl 5 ◌>>=◌ ◌>>◌
  unfoldable pub ◌>>=◌ : Tx B A → (A → Tx B C) → Tx B C
  ◌>>=◌ m f s = let (r, s') = m s in continue r f s'

  abbrev pub ◌>>◌ : Tx B A → Tx B C → Tx B C
  m >> n = m >>= λ _. n

abbrev pub or_raise : {B A : Type 0} → Option A → Error → Tx B A
or_raise none e = raise e
or_raise (some a) e = pure a

abbrev pub next_tick : {B : Type 0} → State B → State B
next_tick s = record s { tick = s.tick + 1 }

module _ {B : Type 0} (P : Platform B) where
  abbrev pub finish : {A : Type 0} → Option (A × Db B) → State B → Outcome A × State B
  finish none s = (raised failure, next_tick s)
  finish (some (a, d)) s = (ok a, record s { db = d; tick = s.tick + 1 })

  -- One SQL statement: it fails, it breaks a constraint (`none`), or it gives rows and writes.
  unfoldable pub statement : {A : Type 0} → (ℕ → Db B → Option (A × Db B)) → Tx B A
  statement f s = if P.fails s.tick then (raised failure, next_tick s) else finish (f s.tick s.db) s

  -- A statement that reads.
  unfoldable pub query : {A : Type 0} → (Db B → A) → Tx B A
  query f = statement (λ _ d. some (f d, d))

  -- A statement that writes.
  unfoldable pub exec : (Db B → Db B) → Tx B (Unit {0})
  exec f = statement (λ _ d. some (tt, f d))

  -- `time.Now().UTC()`
  unfoldable pub now : Tx B ℕ
  now s = (ok (P.clock s.tick), next_tick s)

  -- `uuid.NewString()`
  unfoldable pub new_uuid : Tx B String
  new_uuid s = (ok (P.uuid s.tick), next_tick s)

-- What the caller of the store gets: a value, or an error.
pub data Answer (A : Type 0) : Type 0 where
  answered : A → Answer A
  refused : Error → Answer A

-- What became of the transaction. `left_open`: neither committed nor rolled back, so its connection
-- is not given back to the pool and its locks stay.
pub data Ended : Type 0 where
  committed rolled_back left_open not_begun : Ended

pub record Done (B A : Type 0) : Type 0 where
  pub answer : Answer A
  pub ended : Ended
  pub after : State B

module _ {B A : Type 0} where
  abbrev pub done : Answer A → Ended → Db B → ℕ → Done B A
  done a e d t = record { answer = a; ended = e; after = record { db = d; tick = t } }

  -- The end of the frame; `d` is the database that `BeginTx` found.
  abbrev pub close : Platform B → Db B → Outcome (Answer A) → State B → Done B A
  close P d (ok a) s =
      if P.fails s.tick
      then done (refused failure) rolled_back d (s.tick + 1)
      else done a committed s.db (s.tick + 1)
  close P d (raised e) s = done (refused e) rolled_back d (s.tick + 1)
  close P d (left e) s = done (refused e) left_open d s.tick

  -- The frame. Every function commits on its way to each return that `m` ends with a value.
  unfoldable pub transact : Platform B → Tx B (Answer A) → State B → Done B A
  transact P m s =
      if P.fails s.tick
      then done (refused failure) not_begun s.db (s.tick + 1)
      else (let (r, s') = m (next_tick s) in close P s.db r s')
