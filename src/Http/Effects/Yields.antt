-- ===== src/Http/Effects/Yields.antt =====
-- services/queue-service/internal/httpapi: what a check has tested when it lets the handler go on.
use qms.Base.{Bool, true, false, ◌≡◌, refl, ◌∙◌, inl, if◌then◌else◌}
use qms.Queue.Tx.{Platform, State}
use qms.Queue.Operations.{Config}
use qms.Queue.Service.{Request}
use qms.Http.Messages.{Response}
use qms.Http.Web.{Web, Step, go, reply, pure, respond, ◌>>=◌, continue}
use qms.Http.Effects.{Idle, Idle-pure, Idle-respond, Effect, AtMostOne, moved}

abbrev pub Passed : {B A : Type 0} → (A → Type 0) → Step B A → Type 0
Passed R (go a) = R a
Passed R (reply r) = Unit {0}

-- The check leaves the database alone, and a value with which it goes on satisfies `R`.
pub record Yields {B A : Type 0} (R : A → Type 0) (m : Web B A) : Type 0 where
  pub idle : Idle m
  pub at : (s : State B) → Passed R (m s).0

module _ {B A : Type 0} (R : A → Type 0) where
  pub Yields-pure : (a : A) → R a → Yields R (pure {B = B} a)
  unfolding pure
  Yields-pure a p = record { idle = Idle-pure a; at = λ s. p }

  pub Yields-respond : (r : Response B) → Yields R (respond {A = A} r)
  unfolding respond
  Yields-respond r = record { idle = Idle-respond r; at = λ s. tt }

  pub Yields-if :
      (b : Bool) (m n : Web B A)
      → (b ≡ true → Yields R m)
      → (b ≡ false → Yields R n)
      → Yields R (if b then m else n)
  Yields-if true m n ym yn = ym refl
  Yields-if false m n ym yn = yn refl

module _ {B A C : Type 0} (S : A → Type 0) where
  Passed-continue :
      (R : C → Type 0) (x : Step B A) (f : A → Web B C) (s : State B)
      → Passed S x
      → ((a : A) → S a → Yields R (f a))
      → Passed R (continue x f s).0
  Passed-continue R (go a) f s p h = (h a p).at s
  Passed-continue R (reply r) f s p h = tt

  Idle-continue :
      (R : C → Type 0) (x : Step B A) (f : A → Web B C) (s : State B)
      → Passed S x
      → ((a : A) → S a → Yields R (f a))
      → (continue x f s).1.db ≡ s.db
  Idle-continue R (go a) f s p h = (h a p).idle.at s
  Idle-continue R (reply r) f s p h = refl

  pub Yields-bind :
      (R : C → Type 0) (m : Web B A) (f : A → Web B C)
      → Yields S m
      → ((a : A) → S a → Yields R (f a))
      → Yields R (m >>= f)
  unfolding ◌>>=◌
  Yields-bind R m f y h = record {
    idle = record {
      at = λ s. let (x, s') = m s in Idle-continue R x f s' (y.at s) h ∙ y.idle.at s;
    };
    at = λ s. let (x, s') = m s in Passed-continue R x f s' (y.at s) h;
  }

  one_after :
      (P : Platform B) (c : Config) (Q : Request → Type 0) (x : Step B A) (f : A → Web B C)
      (s : State B)
      → Passed S x
      → ((a : A) → S a → AtMostOne P c Q (f a))
      → Effect P c Q s.db (continue x f s).1.db
  one_after P c Q (go a) f s p h = (h a p).at s
  one_after P c Q (reply r) f s p h = inl refl

  pub AtMostOne-after :
      (P : Platform B) (c : Config) (Q : Request → Type 0) (m : Web B A) (f : A → Web B C)
      → Yields S m
      → ((a : A) → S a → AtMostOne P c Q (f a))
      → AtMostOne P c Q (m >>= f)
  unfolding ◌>>=◌
  AtMostOne-after P c Q m f y h = record {
    at = λ s.
        let (x, s') = m s in
        moved P c Q s.db s'.db _ (y.idle.at s) (one_after P c Q x f s' (y.at s) h);
  }

trivial : {B A : Type 0} (x : Step B A) → Passed (λ a. Unit {0}) x
trivial (go a) = tt
trivial (reply r) = tt

pub Yields-Idle : {B A : Type 0} (m : Web B A) → Idle m → Yields (λ a. Unit {0}) m
Yields-Idle m im = record { idle = im; at = λ s. trivial (m s).0 }

pub Yields-skip :
    {B A C : Type 0} (R : C → Type 0) (m : Web B A) (f : A → Web B C)
    → Idle m
    → ((a : A) → Yields R (f a))
    → Yields R (m >>= f)
Yields-skip R m f im h = Yields-bind (λ a. Unit {0}) R m f (Yields-Idle m im) (λ a _. h a)
