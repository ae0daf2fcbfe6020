-- ===== src/Auth/Run/Transactions.antt =====
-- What a transaction that gives a value has done: its statements are seen as a run.
use qms.Base.{Option, none, some, ◌≡◌, refl, Bool-cases, inl, inr, ap}
use qms.Queue.Models.{Error}
use qms.Queue.Db.{Db}
use qms.Queue.Tx
use qms.Queue.Tx.{
  Platform, State, Tx, Outcome, ok, raised, left, Answer, answered, refused, next_tick, close,
  transact,
}
use qms.Auth.Run.{Result, value, pure, ask, submit, result_of}
use qms.Auth.Run.Values.{Yields, Yields-pure}

module _ {B E : Type 0} (P : Platform B) (g : Error → E) where
  Yields-recovered :
      {A C : Type 0} {Q : C → State B → Type 0} (o : Outcome A) (f : A → Tx B C) (s : State B)
      → ((a : A) → result_of g o ≡ value a → Yields (ask g (f a)) s Q)
      → Yields (ask g (λ _. Tx.continue o f s)) s Q
  unfolding ask
  Yields-recovered (ok a) f s y = record { at = (y a refl).at }
  Yields-recovered (raised e) f s y = record { at = λ a s' h. absurd (cc (h)) }
  Yields-recovered (left e) f s y = record { at = λ a s' h. absurd (cc (h)) }

  pub Yields-tx_bind :
      {A C : Type 0} {Q : C → State B → Type 0} (m : Tx B A) (f : A → Tx B C) (s : State B)
      → Yields (ask g m) s (λ a s'. Yields (ask g (f a)) s' Q)
      → Yields (ask g (Tx.◌>>=◌ m f)) s Q
  unfolding ask Tx.◌>>=◌
  Yields-tx_bind {A} m f s y = record {
    at =
        (Yields-recovered (m s).0 f (m s).1
          λ a e. y.at a (m s).1 (ap (λ (r : Result E A). (r, (m s).1)) e)).at;
  }

  pub Yields-tx_pure :
      {A : Type 0} {Q : A → State B → Type 0} (a : A) (s : State B)
      → Q a s
      → Yields (ask g (Tx.pure a)) s Q
  unfolding ask Tx.pure pure
  Yields-tx_pure a s q = record { at = (Yields-pure a s q).at }

  pub Yields-or_raise :
      {A : Type 0} {Q : A → State B → Type 0} (o : Option A) (e : Error) (s : State B)
      → ((a : A) → o ≡ some a → Q a s)
      → Yields (ask g (Tx.or_raise o e)) s Q
  unfolding ask Tx.raise
  Yields-or_raise none e s q = record { at = λ a s' h. absurd (cc (h)) }
  Yields-or_raise (some a) e s q = Yields-tx_pure a s (q a refl)

  closed :
      {A : Type 0} {Q : A → State B → Type 0} (d : Db B) (o : Outcome (Answer A)) (s : State B)
      → ((a : A) → result_of g o ≡ value (answered a) → Q a (next_tick s))
      → Yields (submit g (λ _. close P d o s)) s Q
  unfolding submit pure
  closed {Q} d (ok (answered a)) s y = elim (Bool-cases (P.fails s.tick)) [
    | inl e ↦ record { at = λ b s' h. absurd (cc (rw e at h)) }
    | inr e ↦ record {
      at = λ b s' h. (Yields-pure {Q = Q} a (next_tick s) (y a refl)).at b s' (rw e at h);
    }
  ]
  closed {Q} d (ok (refused x)) s y = elim (Bool-cases (P.fails s.tick)) [
    | inl e ↦ record { at = λ b s' h. absurd (cc (rw e at h)) }
    | inr e ↦ record { at = λ b s' h. absurd (cc (rw e at h)) }
  ]
  closed {Q} d (raised e) s y = record { at = λ a s' h. absurd (cc (h)) }
  closed {Q} d (left e) s y = record { at = λ a s' h. absurd (cc (h)) }

  -- A transaction that gives a value was committed.
  pub Yields-transact :
      {A : Type 0} {Q : A → State B → Type 0} (m : Tx B (Answer A)) (s : State B)
      → Yields (ask g m) (next_tick s) (λ c s'. (a : A) → c ≡ answered a → Q a (next_tick s'))
      → Yields (submit g (transact P m)) s Q
  unfolding submit transact ask
  Yields-transact {Q} m s y = elim (Bool-cases (P.fails s.tick)) [
    | inl e ↦ record { at = λ a s' h. absurd (cc (rw e at h)) }
    | inr e ↦ record {
      at = λ a s' h.
          (closed {Q = Q} s.db (m (next_tick s)).0 (m (next_tick s)).1 λ b q.
              y.at (answered b) (m (next_tick s)).1 (ap (λ r. (r, (m (next_tick s)).1)) q) b
                refl).at
            a s' (rw e at h);
    }
  ]
