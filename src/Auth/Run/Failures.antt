-- ===== src/Auth/Run/Failures.antt =====
-- Runs that write nothing, and runs that write nothing when they end with an error.
use qms.Base.{
  Bool, true, false, Option, none, some, ◌≡◌, refl, Bool-cases, inl, inr, ap, sym, ◌∙◌, ℕ,
}
use qms.Queue.Models.{Error, failure}
use qms.Queue.Db.{Db}
use qms.Queue.Tx.{
  Platform, State, Tx, Answer, raised, left, ok, statement, query, now, new_uuid, finish, transact,
  next_tick, close, Outcome,
}
use qms.Auth.Run.{
  Run, Result, value, ended, pure, stop, or_stop, stop_if, continue, ◌>>=◌, ask, submit, result_of,
}
use qms.Auth.Run.Values.{Yields}

-- `m` leaves the tables as they are.
pub record Reads {B E A : Type 0} (m : Run B E A) : Type 0 where
  pub at : (s : State B) → (m s).1.db ≡ s.db

-- `m` leaves the tables as they are if it ends with an error.
pub record Restores {B E A : Type 0} (m : Run B E A) : Type 0 where
  pub at : (s : State B) (e : E) (s' : State B) → m s ≡ (ended e, s') → s'.db ≡ s.db

module _ {B E A : Type 0} where
  pub Restores-Reads : (m : Run B E A) → Reads m → Restores m
  Restores-Reads m r = record {
    at = λ s e s' h. ap (λ (x : Result E A × State B). x.1.db) (sym h) ∙ r.at s;
  }

  pub Reads-pure : (a : A) → Reads {B = B} {E = E} (pure a)
  unfolding pure
  Reads-pure a = record { at = λ s. refl }

  pub Reads-stop : (e : E) → Reads {B = B} {A = A} (stop e)
  unfolding stop
  Reads-stop e = record { at = λ s. refl }

  pub Reads-or_stop : (o : Option A) (e : E) → Reads {B = B} (or_stop o e)
  Reads-or_stop none e = Reads-stop e
  Reads-or_stop (some a) e = Reads-pure a

pub Reads-stop_if : {B E : Type 0} (b : Bool) (e : E) → Reads {B = B} (stop_if b e)
Reads-stop_if true e = Reads-stop e
Reads-stop_if false e = Reads-pure tt

module _ {B E A C : Type 0} where
  Reads-continue :
      (r : Result E A) (f : A → Run B E C) (s : State B)
      → ((a : A) → Reads (f a))
      → (continue r f s).1.db ≡ s.db
  Reads-continue (value a) f s k = (k a).at s
  Reads-continue (ended e) f s k = refl

  pub Reads-bind :
      (m : Run B E A) (f : A → Run B E C) → Reads m → ((a : A) → Reads (f a)) → Reads (m >>= f)
  unfolding ◌>>=◌
  Reads-bind m f r k = record { at = λ s. Reads-continue (m s).0 f (m s).1 k ∙ r.at s }

  Restores-continue :
      (r : Result E A) (f : A → Run B E C) (s : State B)
      → ((a : A) → Restores (f a))
      → (e : E) (s' : State B) → continue r f s ≡ (ended e, s')
      → s'.db ≡ s.db
  Restores-continue (value a) f s k e s' h = (k a).at s e s' h
  Restores-continue (ended x) f s k e s' h = ap (λ (y : Result E C × State B). y.1.db) (sym h)

  -- First what writes nothing.
  pub Restores-bind :
      (m : Run B E A) (f : A → Run B E C)
      → Reads m
      → ((a : A) → Restores (f a))
      → Restores (m >>= f)
  unfolding ◌>>=◌
  Restores-bind m f r k = record {
    at = λ s e s' h. Restores-continue (m s).0 f (m s).1 k e s' h ∙ r.at s;
  }

  Restores-last :
      (r : Result E A) (f : A → C) (s s1 : State B) (e : E) (s' : State B)
      → ((x : E) → r ≡ ended x → s1.db ≡ s.db)
      → continue r (λ a. pure (f a)) s1 ≡ (ended e, s')
      → s'.db ≡ s.db
  unfolding pure
  Restores-last (value a) f s s1 e s' k h = absurd (cc (h))
  Restores-last (ended x) f s s1 e s' k h =
      ap (λ (y : Result E C × State B). y.1.db) (sym h) ∙ k x refl

  -- What follows a write does not end with an error.
  pub Restores-then_pure :
      (m : Run B E A) (f : A → C) → Restores m → Restores (m >>= λ a. pure (f a))
  unfolding ◌>>=◌
  Restores-then_pure m f k = record {
    at = λ s e s' h.
        Restores-last (m s).0 f s (m s).1 e s'
          (λ x q. k.at s x (m s).1 (ap (λ (y : Result E A). (y, (m s).1)) q)) h;
  }

module _ {B E : Type 0} (P : Platform B) (g : Error → E) where
  finished :
      {A : Type 0} (o : Option (A × Db B)) (s : State B) (e : E) (s' : State B)
      → ask g (finish P o) s ≡ (ended e, s')
      → s'.db ≡ s.db
  unfolding ask
  finished none s e s' h = sym (cc (h))
  finished (some (a, d)) s e s' h = absurd (cc (h))

  pub Restores-statement :
      {A : Type 0} (f : ℕ → Db B → Option (A × Db B)) → Restores (ask g (statement P f))
  unfolding ask statement
  Restores-statement f = record {
    at = λ s e s' h. elim (Bool-cases (P.fails s.tick)) [
      | inl b ↦ cc (rw b at h)
      | inr b ↦ finished (f s.tick s.db) s e s' (rw b at h)
    ];
  }

  pub Reads-query : {A : Type 0} (f : Db B → A) → Reads (ask g (query P f))
  unfolding ask query statement
  Reads-query f = record {
    at = λ s. elim (Bool-cases (P.fails s.tick)) [ inl b ↦ rw b refl | inr b ↦ rw b refl ];
  }

  pub Reads-now : Reads (ask g (now P))
  unfolding ask now
  Reads-now = record { at = λ s. refl }

  pub Reads-new_uuid : Reads (ask g (new_uuid P))
  unfolding ask new_uuid
  Reads-new_uuid = record { at = λ s. refl }

  undone :
      {A : Type 0} (d : Db B) (o : Outcome (Answer A)) (s : State B)
      → ((c : Answer A) → o ≡ ok c → ⊥)
      → (e : E) × ((submit g (λ _. close P d o s) s).0 ≡ ended e)
        × ((submit g (λ _. close P d o s) s).1.db ≡ d)
  unfolding submit
  undone d (ok c) s k = absurd (k c refl)
  undone d (raised x) s k = (g x, refl, refl)
  undone d (left x) s k = (g x, refl, refl)

  -- A transaction that cannot be committed ends with an error, and has written nothing.
  pub transact_undone :
      {A : Type 0} (m : Tx B (Answer A)) (s : State B)
      → Yields (ask g m) (next_tick s) (λ _ _. ⊥)
      → (e : E) × ((submit g (transact P m) s).0 ≡ ended e)
        × ((submit g (transact P m) s).1.db ≡ s.db)
  unfolding submit transact ask
  transact_undone {A} m s y = elim (Bool-cases (P.fails s.tick)) [
    | inl b ↦ rw b (g failure, refl, refl)
    | inr b ↦ rw b (
        undone s.db (m (next_tick s)).0 (m (next_tick s)).1 λ c q.
          y.at c (m (next_tick s)).1
            (ap (λ (o : Outcome (Answer A)). (result_of g o, (m (next_tick s)).1)) q))
  ]

pub ended_bind :
    {B E A C : Type 0} (m : Run B E A) (f : A → Run B E C) (e : E) (s : State B)
    → (m s).0 ≡ ended e
    → (m >>= f) s ≡ (ended e, (m s).1)
unfolding ◌>>=◌
ended_bind m f e s h = rw h refl
