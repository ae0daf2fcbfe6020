-- ===== src/Queue/Tx/Closes.antt =====
-- Transactions whose errors all stand in the variable that the rollback tests: one rule for each
-- way to build one.
use qms.Base.{
  ℕ, Bool, true, false, Option, none, some, ◌≢◌, if◌then◌else◌, maybe, Bool-cases, inl, inr,
}
use qms.Queue.Models.{Error}
use qms.Queue.Db.{Db}
use qms.Queue.Tx.{
  Platform, State, Tx, Outcome, ok, raised, left, pure, raise, continue, ◌>>=◌, or_raise, finish,
  statement, query, exec, now, new_uuid, Answer, left_open, close, transact, next_tick,
}

-- An outcome that the frame commits or rolls back.
abbrev pub IsSeen : {A : Type 0} → Outcome A → Type 0
IsSeen (ok a) = Unit
IsSeen (raised e) = Unit
IsSeen (left e) = ⊥

pub record Closes {B : Type 0} {A : Type 0} (m : Tx B A) : Type 0 where
  pub at : (s : State B) → IsSeen (m s).0

module _ {B : Type 0} {A : Type 0} where
  pub Closes-pure : (a : A) → Closes {B = B} (pure a)
  unfolding pure
  Closes-pure a = record { at = λ s. tt }

  pub Closes-raise : (e : Error) → Closes {B = B} (raise {A = A} e)
  unfolding raise
  Closes-raise e = record { at = λ s. tt }

  pub Closes-or_raise : (o : Option A) (e : Error) → Closes {B = B} (or_raise o e)
  Closes-or_raise none e = Closes-raise e
  Closes-or_raise (some a) e = Closes-pure a

  pub Closes-if : (b : Bool) (m n : Tx B A) → Closes m → Closes n → Closes (if b then m else n)
  Closes-if true m n km kn = km
  Closes-if false m n km kn = kn

  pub Closes-maybe {ℓ} :
      {X : Type ℓ} (o : Option X) (m : Tx B A) (f : X → Tx B A)
      → Closes m
      → ((x : X) → Closes (f x))
      → Closes (maybe o m f)
  unfolding maybe
  Closes-maybe none m f km kf = km
  Closes-maybe (some x) m f km kf = kf x

module _ {B : Type 0} {A : Type 0} {C : Type 0} where
  continue-Closes :
      (r : Outcome A) (f : A → Tx B C) (s : State B)
      → IsSeen r
      → ((a : A) → Closes (f a))
      → IsSeen (continue r f s).0
  continue-Closes (ok a) f s h kf = (kf a).at s
  continue-Closes (raised e) f s h kf = tt
  continue-Closes (left e) f s h kf = h

  pub Closes-bind :
      (m : Tx B A) (f : A → Tx B C) → Closes m → ((a : A) → Closes (f a)) → Closes (m >>= f)
  unfolding ◌>>=◌
  Closes-bind m f km kf = record {
    at = λ s. let (r, s') = m s in continue-Closes r f s' (km.at s) kf;
  }

module _ {B : Type 0} (P : Platform B) where
  finish_closes : {A : Type 0} (o : Option (A × Db B)) (s : State B) → IsSeen (finish P o s).0
  finish_closes none s = tt
  finish_closes (some (a, d)) s = tt

  pub Closes-statement : {A : Type 0} (f : ℕ → Db B → Option (A × Db B)) → Closes (statement P f)
  unfolding statement
  Closes-statement f = record {
    at = λ s. elim (Bool-cases (P.fails s.tick)) [
      | inl e ↦ rw e tt
      | inr e ↦ rw e (finish_closes (f s.tick s.db) s)
    ];
  }

  pub Closes-query : {A : Type 0} (f : Db B → A) → Closes (query P f)
  unfolding query
  Closes-query f = Closes-statement _

  pub Closes-exec : (f : Db B → Db B) → Closes (exec P f)
  unfolding exec
  Closes-exec f = Closes-statement _

  pub Closes-now : Closes (now P)
  unfolding now
  Closes-now = record { at = λ s. tt }

  pub Closes-new_uuid : Closes (new_uuid P)
  unfolding new_uuid
  Closes-new_uuid = record { at = λ s. tt }

  close_ends :
      {A : Type 0} (d : Db B) (r : Outcome (Answer A)) (s : State B)
      → IsSeen r
      → (close P d r s).ended ≢ left_open
  close_ends d (ok a) s h = elim (Bool-cases (P.fails s.tick)) [
    | inl e ↦ rw e (λ q. cc)
    | inr e ↦ rw e (λ q. cc)
  ]
  close_ends d (raised e) s h = λ q. cc
  close_ends d (left e) s h = absurd h

  -- So the frame commits or rolls back.
  pub transact-ends :
      {A : Type 0} (m : Tx B (Answer A)) (s : State B)
      → Closes m
      → (transact P m s).ended ≢ left_open
  unfolding transact
  transact-ends m s km = elim (Bool-cases (P.fails s.tick)) [
    | inl e ↦ rw e (λ q. cc)
    | inr e ↦ rw e (let (r, s') = m (next_tick s) in close_ends s.db r s' (km.at (next_tick s)))
  ]

pub ruleset closes_rules = (
  Closes-pure, Closes-raise, Closes-or_raise, Closes-if, Closes-maybe, Closes-bind,
  Closes-statement, Closes-query, Closes-exec, Closes-now, Closes-new_uuid,
)
