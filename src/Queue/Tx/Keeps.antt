-- ===== src/Queue/Tx/Keeps.antt =====
-- Invariants of transactions: one rule for each way to build one.
use qms.Base.{
  ℕ, Bool, true, false, Option, none, some, ◌≡◌, refl, if◌then◌else◌, maybe, Bool-cases, inl, inr,
  subst, arith,
}
use qms.Queue.Models.{Error, no_rows}
use qms.Queue.Db.{Db}
use qms.Queue.Tx.{
  Platform, State, Tx, Outcome, ok, raised, left, pure, raise, leave, shadowed, or_if_no_rows,
  recover, continue, ◌>>=◌, or_raise, finish, statement, query, exec, now, new_uuid, Answer, close,
  transact, next_tick,
}

-- However `m` ends, the database that it leaves satisfies `Q` if the one that it found did.
pub record Keeps {B : Type 0} {A : Type 0} (Q : Db B → Type 0) (m : Tx B A) : Type 0 where
  pub at : (s : State B) → Q s.db → Q (m s).1.db

module _ {B : Type 0} {A : Type 0} {Q : Db B → Type 0} where
  pub Keeps-pure : (a : A) → Keeps Q (pure a)
  unfolding pure
  Keeps-pure a = record { at = λ s h. h }

  pub Keeps-raise : (e : Error) → Keeps Q (raise {A = A} e)
  unfolding raise
  Keeps-raise e = record { at = λ s h. h }

  pub Keeps-leave : (e : Error) → Keeps Q (leave {A = A} e)
  unfolding leave
  Keeps-leave e = record { at = λ s h. h }

  pub Keeps-or_raise : (o : Option A) (e : Error) → Keeps Q (or_raise o e)
  Keeps-or_raise none e = Keeps-raise e
  Keeps-or_raise (some a) e = Keeps-pure a

  pub Keeps-if :
      (b : Bool) (m n : Tx B A)
      → (b ≡ true → Keeps Q m)
      → (b ≡ false → Keeps Q n)
      → Keeps Q (if b then m else n)
  Keeps-if true m n km kn = km refl
  Keeps-if false m n km kn = kn refl

  pub Keeps-maybe {ℓ} :
      {X : Type ℓ} (o : Option X) (m : Tx B A) (f : X → Tx B A)
      → Keeps Q m
      → ((x : X) → Keeps Q (f x))
      → Keeps Q (maybe o m f)
  unfolding maybe
  Keeps-maybe none m f km kf = km
  Keeps-maybe (some x) m f km kf = kf x

  pub Keeps-shadowed : (m : Tx B A) → Keeps Q m → Keeps Q (shadowed m)
  unfolding shadowed
  Keeps-shadowed m km = record { at = λ s h. km.at s h }

  recover_at :
      (r : Outcome A) (n : Tx B A) (s : State B) → Keeps Q n → Q s.db → Q (recover r n s).1.db
  recover_at (ok a) n s kn h = h
  recover_at (raised no_rows) n s kn h = kn.at s h
  recover_at (raised _) n s kn h = h
  recover_at (left e) n s kn h = h

  pub Keeps-or_if_no_rows : (m n : Tx B A) → Keeps Q m → Keeps Q n → Keeps Q (or_if_no_rows m n)
  unfolding or_if_no_rows
  Keeps-or_if_no_rows m n km kn = record {
    at = λ s h. let (r, s') = m s in recover_at r n s' kn (km.at s h);
  }

module _ {B : Type 0} {A : Type 0} {C : Type 0} {Q : Db B → Type 0} where
  continue_at :
      (r : Outcome A) (f : A → Tx B C) (s : State B)
      → ((a : A) → Keeps Q (f a))
      → Q s.db
      → Q (continue r f s).1.db
  continue_at (ok a) f s kf h = (kf a).at s h
  continue_at (raised e) f s kf h = h
  continue_at (left e) f s kf h = h

  pub Keeps-bind :
      (m : Tx B A) (f : A → Tx B C) → Keeps Q m → ((a : A) → Keeps Q (f a)) → Keeps Q (m >>= f)
  unfolding ◌>>=◌
  Keeps-bind m f km kf = record {
    at = λ s h. let (r, s') = m s in continue_at r f s' kf (km.at s h);
  }

module _ {B : Type 0} (P : Platform B) {Q : Db B → Type 0} where
  pub finish_at :
      {A : Type 0} (o : Option (A × Db B)) (s : State B)
      → ((a : A) (d : Db B) → o ≡ some (a, d) → Q d)
      → Q s.db
      → Q (finish P o s).1.db
  finish_at none s k h = h
  finish_at (some (a, d)) s k h = k a d refl

  -- A statement keeps what it keeps on every database on which it succeeds.
  pub Keeps-statement :
      {A : Type 0} (f : ℕ → Db B → Option (A × Db B))
      → ((t : ℕ) (d : Db B) → Q d → (a : A) (d' : Db B) → f t d ≡ some (a, d') → Q d')
      → Keeps Q (statement P f)
  unfolding statement
  Keeps-statement f k = record {
    at = λ s h. elim (Bool-cases (P.fails s.tick)) [
      | inl e ↦ rw e h
      | inr e ↦ rw e (finish_at (f s.tick s.db) s (k s.tick s.db h) h)
    ];
  }

  -- A statement that writes by `g`, and returns what it reads by `f`.
  pub Keeps-write :
      {A : Type 0} (f : Db B → A) (g : Db B → Db B)
      → ((d : Db B) → Q d → Q (g d))
      → Keeps Q (statement P (λ _ d. some (f d, g d)))
  Keeps-write f g k = Keeps-statement _ (λ t d h a d' e. subst Q (ground arith) (k d h))

  pub Keeps-query : {A : Type 0} (f : Db B → A) → Keeps Q (query P f)
  unfolding query
  Keeps-query f = Keeps-statement _ (λ t d h a d' e. subst Q (ground arith) h)

  pub Keeps-exec : (f : Db B → Db B) → ((d : Db B) → Q d → Q (f d)) → Keeps Q (exec P f)
  unfolding exec
  Keeps-exec f k = Keeps-statement _ (λ t d h a d' e. subst Q (ground arith) (k d h))

  pub Keeps-now : Keeps Q (now P)
  unfolding now
  Keeps-now = record { at = λ s h. h }

  pub Keeps-new_uuid : Keeps Q (new_uuid P)
  unfolding new_uuid
  Keeps-new_uuid = record { at = λ s h. h }

module _ {B : Type 0} {A : Type 0} (P : Platform B) where
  close_at :
      (Q : Db B → Type 0) (d : Db B) (r : Outcome (Answer A)) (s : State B)
      → Q d
      → Q s.db
      → Q (close P d r s).after.db
  close_at Q d (ok a) s h k = elim (Bool-cases (P.fails s.tick)) [ inl e ↦ rw e h | inr e ↦ rw e k ]
  close_at Q d (raised e) s h k = h
  close_at Q d (left e) s h k = h

  pub transact_at :
      (Q : Db B → Type 0) (m : Tx B (Answer A)) (s : State B)
      → Q s.db
      → Q (m (next_tick s)).1.db
      → Q (transact P m s).after.db
  unfolding transact
  transact_at Q m s h k = elim (Bool-cases (P.fails s.tick)) [
    | inl e ↦ rw e h
    | inr e ↦ rw e (let (r, s') = m (next_tick s) in close_at Q s.db r s' h k)
  ]

  -- However the transaction ends.
  pub transact-Keeps :
      {Q : Db B → Type 0} (m : Tx B (Answer A)) (s : State B)
      → Keeps Q m
      → Q s.db
      → Q (transact P m s).after.db
  transact-Keeps {Q} m s km h = transact_at Q m s h (km.at (next_tick s) h)

pub ruleset keeps_rules = (
  Keeps-pure, Keeps-raise, Keeps-leave, Keeps-or_raise, Keeps-if, Keeps-maybe, Keeps-shadowed,
  Keeps-or_if_no_rows, Keeps-bind, Keeps-query, Keeps-now, Keeps-new_uuid,
)
