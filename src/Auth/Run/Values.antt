-- ===== src/Auth/Run/Values.antt =====
-- What a run that gives a value has done: one rule for each way to build one.
use qms.Base.{
  ◌+◌, Bool, true, false, Option, none, some, ◌≡◌, refl, Bool-cases, inl, inr, ℕ, subst, ap, arith,
  String,
}
use qms.Queue.Models.{Error}
use qms.Queue.Db.{Db}
use qms.Queue.Tx.{Platform, State, statement, query, now, new_uuid, finish, next_tick}
use qms.Auth.Run.{
  Run, Result, value, ended, pure, stop, or_stop, stop_if, continue, ◌>>=◌, ask, or_end,
}

-- If `m`, begun at `s`, gives a value, that and the state then satisfy `Q`.
pub record Yields {B E A : Type 0} (m : Run B E A) (s : State B) (Q : A → State B → Type 0)
    : Type 0 where
  pub at : (a : A) (s' : State B) → m s ≡ (value a, s') → Q a s'

module _ {B E A : Type 0} {Q : A → State B → Type 0} where
  pub Yields-pure : (a : A) (s : State B) → Q a s → Yields {E = E} (pure a) s Q
  unfolding pure
  Yields-pure a s q = record {
    at = λ b s' h.
        let p : a ≡ b = cc in
        let r : s ≡ s' = cc in subst (λ (x : A). Q x s') p (subst (λ (x : State B). Q a x) r q);
  }

  pub Yields-stop : (e : E) (s : State B) → Yields (stop e) s Q
  unfolding stop
  Yields-stop e s = record { at = λ b s' h. absurd (cc (h)) }

  pub Yields-or_stop :
      (o : Option A) (e : E) (s : State B)
      → ((a : A) → o ≡ some a → Q a s)
      → Yields (or_stop o e) s Q
  Yields-or_stop none e s q = Yields-stop e s
  Yields-or_stop (some a) e s q = Yields-pure a s (q a refl)

  pub Yields-map :
      {R : A → State B → Type 0} (m : Run B E A) (s : State B)
      → Yields m s Q
      → ((a : A) (s' : State B) → Q a s' → R a s')
      → Yields m s R
  Yields-map m s y f = record { at = λ a s' h. f a s' (y.at a s' h) }

pub Yields-stop_if :
    {B E : Type 0} {Q : Unit {0} → State B → Type 0} (b : Bool) (e : E) (s : State B)
    → (b ≡ false → Q tt s)
    → Yields (stop_if b e) s Q
Yields-stop_if true e s q = Yields-stop e s
Yields-stop_if false e s q = Yields-pure tt s (q refl)

module _ {B E A C : Type 0} {Q : C → State B → Type 0} where
  Yields-continue :
      (r : Result E A) (f : A → Run B E C) (s : State B)
      → ((a : A) → r ≡ value a → Yields (f a) s Q)
      → Yields (λ _. continue r f s) s Q
  Yields-continue (value a) f s y = record { at = (y a refl).at }
  Yields-continue (ended e) f s y = record { at = λ b s' h. absurd (cc (h)) }

  pub Yields-bind :
      (m : Run B E A) (f : A → Run B E C) (s : State B)
      → Yields m s (λ a s'. Yields (f a) s' Q)
      → Yields (m >>= f) s Q
  unfolding ◌>>=◌
  Yields-bind m f s y = record {
    at =
        (Yields-continue (m s).0 f (m s).1
          λ a e. y.at a (m s).1 (ap (λ (r : Result E A). (r, (m s).1)) e)).at;
  }

pub Yields-or_end :
    {B E F A : Type 0} {Q : A → State B → Type 0} (g : F → E) (m : Run B F A) (s : State B)
    → Yields m s Q
    → Yields (or_end g m) s Q
unfolding or_end
Yields-or_end g m s y = record { at = λ a s' h. y.at a s' (ground (arith, h)) }

module _ {B E A : Type 0} (P : Platform B) (g : Error → E) {Q : A → State B → Type 0} where
  Yields-finish :
      (o : Option (A × Db B)) (s : State B)
      → ((a : A) (d : Db B) → o ≡ some (a, d) → Q a (record s { db = d; tick = s.tick + 1 }))
      → Yields (ask g (finish P o)) s Q
  unfolding ask pure
  Yields-finish none s q = record { at = λ a s' h. absurd (cc (h)) }
  Yields-finish (some (a, d)) s q = record { at = (Yields-pure a _ (q a d refl)).at }

  -- A statement that gives a value did not fail.
  pub Yields-statement :
      (f : ℕ → Db B → Option (A × Db B)) (s : State B)
      → ((a : A) (d : Db B)
          → f s.tick s.db ≡ some (a, d)
          → Q a (record s { db = d; tick = s.tick + 1 }))
      → Yields (ask g (statement P f)) s Q
  unfolding ask statement
  Yields-statement f s q = elim (Bool-cases (P.fails s.tick)) [
    | inl e ↦ record { at = λ a s' h. absurd (cc (rw e at h)) }
    | inr e ↦ record { at = λ a s' h. (Yields-finish (f s.tick s.db) s q).at a s' (rw e at h) }
  ]

  pub Yields-query :
      (f : Db B → A) (s : State B) → Q (f s.db) (next_tick s) → Yields (ask g (query P f)) s Q
  unfolding query
  Yields-query f s q =
      Yields-statement (λ _ d. some (f d, d)) s
        λ a d h.
          subst (λ (p : A × Db B). Q p.0 (record s { db = p.1; tick = s.tick + 1 }))
            {x = (f s.db, s.db)} (cc (h)) q

module _ {B E : Type 0} (P : Platform B) (g : Error → E) where
  pub Yields-new_uuid :
      {Q : String → State B → Type 0} (s : State B)
      → Q (P.uuid s.tick) (next_tick s)
      → Yields (ask g (new_uuid P)) s Q
  unfolding ask new_uuid pure
  Yields-new_uuid s q = record { at = (Yields-pure (P.uuid s.tick) (next_tick s) q).at }

  pub Yields-now :
      {Q : ℕ → State B → Type 0} (s : State B)
      → Q (P.clock s.tick) (next_tick s)
      → Yields (ask g (now P)) s Q
  unfolding ask now pure
  Yields-now s q = record { at = (Yields-pure (P.clock s.tick) (next_tick s) q).at }
