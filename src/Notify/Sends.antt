-- ===== src/Notify/Sends.antt =====
-- services/notification-service/internal/worker/worker.go: what a job hands to the providers.
use qms.Base.{
  ℕ, Bool, true, false, Option, none, some, List, [], ◌∷◌, ◌++◌, ◌≡◌, refl, ap, ◌∙◌, inl, inr,
  if◌then◌else◌, maybe, All, Bool-cases,
}
use qms.Queue.Tx.{Platform}
use qms.Notify.Store.{
  Sending, State, Tables, Job, pure, give_up, ◌>>=◌, continue, statement, query, finish, now,
  new_uuid,
}

-- Whatever becomes of the job, all that it hands to providers satisfies `R`.
pub record Sends {B A : Type 0} (R : Sending → Type 0) (m : Job B A) : Type 0 where
  pub at : (s : State B) → (new : List Sending) × ((m s).1.sendings ≡ new ++ s.sendings) × All R new

assoc_append : (xs ys zs : List Sending) → xs ++ (ys ++ zs) ≡ (xs ++ ys) ++ zs
assoc_append [] ys zs = refl
assoc_append (x ∷ xs) ys zs = ap (λ (l : List Sending). x ∷ l) (assoc_append xs ys zs)

All-append : (R : Sending → Type 0) (xs ys : List Sending) → All R xs → All R ys → All R (xs ++ ys)
All-append R [] ys h k = k
All-append R (x ∷ xs) ys h k = (h.0, All-append R xs ys h.1 k)

module _ {B : Type 0} (R : Sending → Type 0) where
  pub Sends-pure : {A : Type 0} (a : A) → Sends R (pure {B = B} a)
  unfolding pure
  Sends-pure a = record { at = λ s. ([], refl, tt) }

  pub Sends-give_up : {A : Type 0} → Sends R (give_up {B = B} {A = A})
  unfolding give_up
  Sends-give_up = record { at = λ s. ([], refl, tt) }

  pub Sends-if :
      {A : Type 0} (b : Bool) (m n : Job B A)
      → (b ≡ true → Sends R m)
      → (b ≡ false → Sends R n)
      → Sends R (if b then m else n)
  Sends-if true m n h k = h refl
  Sends-if false m n h k = k refl

  pub Sends-maybe :
      {A X : Type 0} (o : Option X) (m : Job B A) (f : X → Job B A)
      → Sends R m
      → ((x : X) → Sends R (f x))
      → Sends R (maybe o m f)
  unfolding maybe
  Sends-maybe none m f h k = h
  Sends-maybe (some x) m f h k = k x

  Sends-continue :
      {A C : Type 0} (o : Option A) (f : A → Job B C) (s : State B)
      → ((a : A) → Sends R (f a))
      → (new : List Sending) × ((continue o f s).1.sendings ≡ new ++ s.sendings) × All R new
  Sends-continue none f s h = ([], refl, tt)
  Sends-continue (some a) f s h = (h a).at s

  pub Sends-bind :
      {A C : Type 0} (m : Job B A) (f : A → Job B C)
      → Sends R m
      → ((a : A) → Sends R (f a))
      → Sends R (m >>= f)
  unfolding ◌>>=◌
  Sends-bind m f sm h = record {
    at = λ s.
        let (first, q, all) = sm.at s in
        let (second, q', all') = Sends-continue (m s).0 f (m s).1 h in
        (
          second ++ first,
          q' ∙ ap (λ (l : List Sending). second ++ l) q ∙ assoc_append second first s.sendings,
          All-append R second first all' all,
        );
  }

  module _ (P : Platform B) where
    finished :
        {A : Type 0} (o : Option (A × Tables B)) (s : State B)
        → (finish P o s).1.sendings ≡ s.sendings
    finished none s = refl
    finished (some (a, t)) s = refl

    pub Sends-statement :
        {A : Type 0} (f : ℕ → Tables B → Option (A × Tables B)) → Sends R (statement P f)
    unfolding statement
    Sends-statement f = record {
      at = λ s. (
        [],
        elim (Bool-cases (P.fails s.tick)) [
          | inl t ↦ rw t refl
          | inr t ↦ rw t (finished (f s.tick s.tables) s)
        ],
        tt,
      );
    }

    pub Sends-query : {A : Type 0} (f : Tables B → A) → Sends R (query P f)
    unfolding query
    Sends-query f = Sends-statement _

    pub Sends-now : Sends R (now P)
    unfolding now
    Sends-now = record { at = λ s. ([], refl, tt) }

    pub Sends-new_uuid : Sends R (new_uuid P)
    unfolding new_uuid
    Sends-new_uuid = record { at = λ s. ([], refl, tt) }
