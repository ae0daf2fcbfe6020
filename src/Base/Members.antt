-- ===== src/Base/Members.antt =====
-- What a selection from a table, and its first row in an order, have to do with the table.
use Prim.Native.Nat.{ℕ, zero, suc}
use mathlib.Core.Path.{◌≡◌, refl, sym, ap, ◌∙◌, subst}
use mathlib.Core.Logic.{inl, inr}
use mathlib.Core.Bool.{Bool, true, false}
use mathlib.Core.Option.{none, some}
use mathlib.Core.List.{List, [], ◌∷◌, Memᴰ}
use mathlib.Core.List.Memᴰ.{cases_cons, not-nil}
use native.Mathlib.Omega.{arith}
use qms.Base.Tests.{if◌then◌else◌, Bool-cases, Option-cases}
use qms.Base.Lists.{All, select, best, take, insert_by, sort_by, update}

module _ {ℓ} {A : Type ℓ} where
  pub mem-All {κ} : (P : A → Type κ) (a : A) (xs : List A) → Memᴰ a xs → All P xs → P a
  mem-All P a [] m h = absurd (not-nil m)
  mem-All P a (x ∷ xs) m h = elim (cases_cons m) [ inl e ↦ rw e h.0 | inr i ↦ mem-All P a xs i h.1 ]

  pub All-intro {κ} : (P : A → Type κ) → ((a : A) → P a) → (xs : List A) → All P xs
  All-intro P h [] = tt
  All-intro P h (x ∷ xs) = (h x, All-intro P h xs)

  pub mem-select :
      (p : A → Bool) (a : A) (xs : List A) → Memᴰ a (select p xs) → Memᴰ a xs × (p a ≡ true)
  unfolding select
  mem-select p a [] m = absurd (not-nil m)
  mem-select p a (x ∷ xs) m = elim (Bool-cases (p x)) [
    | inl e ↦ elim (cases_cons (rw e at m)) [
      | inl q ↦ (Memᴰ.head q, rw q e)
      | inr j ↦ (Memᴰ.tail (mem-select p a xs j).0, (mem-select p a xs j).1)
    ]
    | inr e ↦ (Memᴰ.tail (mem-select p a xs (rw e at m)).0, (mem-select p a xs (rw e at m)).1)
  ]

  pub select-mem :
      (p : A → Bool) (a : A) (xs : List A) → Memᴰ a xs → p a ≡ true → Memᴰ a (select p xs)
  unfolding select
  select-mem p a [] m h = absurd (not-nil m)
  select-mem p a (x ∷ xs) m h = elim (cases_cons m) [
    | inl q ↦ rw (ap p (sym q) ∙ h) (Memᴰ.head q)
    | inr j ↦ elim (Bool-cases (p x)) [
      | inl e ↦ rw e (Memᴰ.tail (select-mem p a xs j h))
      | inr e ↦ rw e (select-mem p a xs j h)
    ]
  ]

  pub best-mem : (before : A → A → Bool) (xs : List A) (a : A) → best before xs ≡ some a → Memᴰ a xs
  unfolding best
  best-mem before [] a h = absurd (cc)
  best-mem before (x ∷ xs) a h = elim (Option-cases (best before xs)) [
    | inl e ↦ Memᴰ.head (ground (arith, h, e))
    | inr (y, e) ↦ elim (Bool-cases (before y x)) [
      | inl b ↦ Memᴰ.tail (best-mem before xs a (ground (arith, h, e, b)))
      | inr b ↦ Memᴰ.head (ground (arith, h, e, b))
    ]
  ]

  pub best-none : (before : A → A → Bool) (xs : List A) → best before xs ≡ none → xs ≡ []
  unfolding best
  best-none before [] h = refl
  best-none before (x ∷ xs) h = ground arith

  pub All-map {κ μ} :
      (P : A → Type κ) (Q : A → Type μ)
      → ((a : A) → P a → Q a)
      → (xs : List A) → All P xs
      → All Q xs
  All-map P Q f [] h = tt
  All-map P Q f (x ∷ xs) h = (f x h.0, All-map P Q f xs h.1)

  pub All-mem : (xs : List A) → All (λ (a : A). Memᴰ a xs) xs
  All-mem [] = tt
  All-mem (x ∷ xs) = (
    Memᴰ.head refl,
    All-map (λ (a : A). Memᴰ a xs) (λ (a : A). Memᴰ a (x ∷ xs)) (λ a m. Memᴰ.tail m) xs
        (All-mem xs),
  )

  pub All-select {κ μ} :
      (P : A → Type κ) (Q : A → Type μ) (p : A → Bool)
      → ((a : A) → P a → p a ≡ true → Q a)
      → (xs : List A) → All P xs
      → All Q (select p xs)
  unfolding select
  All-select P Q p f [] h = tt
  All-select P Q p f (x ∷ xs) h = elim (Bool-cases (p x)) [
    | inl e ↦ rw e (f x h.0 e, All-select P Q p f xs h.1)
    | inr e ↦ rw e (All-select P Q p f xs h.1)
  ]

  pub All-take {κ} : (P : A → Type κ) (n : ℕ) (xs : List A) → All P xs → All P (take n xs)
  All-take P zero xs h = tt
  All-take P (suc n) [] h = tt
  All-take P (suc n) (x ∷ xs) h = (h.0, All-take P n xs h.1)

  All-insert_by {κ} :
      (P : A → Type κ) (before : A → A → Bool) (x : A) (xs : List A)
      → P x
      → All P xs
      → All P (insert_by before x xs)
  unfolding insert_by
  All-insert_by P before x [] px h = (px, tt)
  All-insert_by P before x (y ∷ ys) px h = elim (Bool-cases (before x y)) [
    | inl e ↦ rw e (px, (h.0, h.1))
    | inr e ↦ rw e (h.0, All-insert_by P before x ys px h.1)
  ]

  pub All-sort_by {κ} :
      (P : A → Type κ) (before : A → A → Bool) (xs : List A) → All P xs → All P (sort_by before xs)
  unfolding sort_by
  All-sort_by P before [] h = tt
  All-sort_by P before (x ∷ xs) h =
      All-insert_by P before x (sort_by before xs) h.0 (All-sort_by P before xs h.1)

  pub best-le :
      (before : A → A → Bool)
      → ((x y z : A) → before y x ≡ false → before z y ≡ false → before z x ≡ false)
      → ((x y : A) → before x y ≡ true → before y x ≡ false)
      → (irrefl : (x : A) → before x x ≡ false) → (xs : List A) (a : A) → best before xs ≡ some a
      → All (λ (x : A). before x a ≡ false) xs
  unfolding best
  best-le before trans asym irrefl [] a h = tt
  best-le before trans asym irrefl (x ∷ xs) a h = elim (Option-cases (best before xs)) [
    | inl e ↦
        rw (best-none before xs e)
          (subst (λ (y : A). before x y ≡ false) {x = x} (ground (arith, h, e)) (irrefl x), tt)
    | inr (y, e) ↦ elim (Bool-cases (before y x)) [
      | inl b ↦
          let same : y ≡ a = ground (arith, h, e, b) in
          subst (λ (c : A). All (λ (z : A). before z c ≡ false) (x ∷ xs)) same
            (asym y x b, best-le before trans asym irrefl xs y e)
      | inr b ↦
          let same : x ≡ a = ground (arith, h, e, b) in
          subst (λ (c : A). All (λ (z : A). before z c ≡ false) (x ∷ xs)) same
            (
              irrefl x,
              All-map (λ (z : A). before z y ≡ false) (λ (z : A). before z x ≡ false)
                  (λ z k. trans x y z b k) xs (best-le before trans asym irrefl xs y e),
            )
    ]
  ]

  pub best-some :
      (before : A → A → Bool) (x : A) (xs : List A) → (a : A) × (best before (x ∷ xs) ≡ some a)
  unfolding best
  best-some before x xs = elim (Option-cases (best before xs)) [
    | inl e ↦ (x, rw e refl)
    | inr (y, e) ↦ elim (Bool-cases (before y x)) [
      | inl b ↦ (y, rw (e, b) refl)
      | inr b ↦ (x, rw (e, b) refl)
    ]
  ]

module _ {A : Type 0} (p : A → Bool) (f : A → A) where
  pub All-update :
      (Q : A → Type 0) (xs : List A) → ((a : A) → Q a → Q (f a)) → All Q xs → All Q (update p f xs)
  unfolding update
  All-update Q [] h q = tt
  All-update Q (x ∷ xs) h q =
      (elim (Bool-cases (p x)) [ inl t ↦ rw t (h x q.0) | inr t ↦ rw t q.0 ], All-update Q xs h q.1)

  pub mem-update : (a : A) (xs : List A) → Memᴰ a xs → Memᴰ (if p a then f a else a) (update p f xs)
  unfolding update
  mem-update a [] m = absurd (not-nil m)
  mem-update a (x ∷ xs) m = elim (cases_cons m) [
    | inl q ↦ Memᴰ.head (ap (λ (y : A). if p y then f y else y) q)
    | inr k ↦ Memᴰ.tail (mem-update a xs k)
  ]

module _ {A : Type 0} (before : A → A → Bool) where
  mem-insert_by : (a x : A) (xs : List A) → Memᴰ a (x ∷ xs) → Memᴰ a (insert_by before x xs)
  unfolding insert_by
  mem-insert_by a x [] m = m
  mem-insert_by a x (y ∷ ys) m = elim (Bool-cases (before x y)) [
    | inl t ↦ rw t m
    | inr t ↦ rw t (elim (cases_cons m) [
      | inl q ↦ Memᴰ.tail (mem-insert_by a x ys (Memᴰ.head q))
      | inr n ↦ elim (cases_cons n) [
        | inl q ↦ Memᴰ.head q
        | inr k ↦ Memᴰ.tail (mem-insert_by a x ys (Memᴰ.tail k))
      ]
    ])
  ]

  pub mem-sort_by : (a : A) (xs : List A) → Memᴰ a xs → Memᴰ a (sort_by before xs)
  unfolding sort_by
  mem-sort_by a [] m = m
  mem-sort_by a (x ∷ xs) m =
      mem-insert_by a x (sort_by before xs)
        (elim (cases_cons m) [ inl q ↦ Memᴰ.head q | inr k ↦ Memᴰ.tail (mem-sort_by a xs k) ])
