-- ===== src/Base/Sorted.antt =====
-- Lists sorted by a Boolean order, and their first rows.
use Prim.Native.Nat.{ℕ, zero, suc}
use mathlib.Core.Path.{◌≡◌}
use mathlib.Core.Logic.{◌⊎◌, inl, inr}
use mathlib.Core.Bool.{Bool, true, false}
use mathlib.Core.List.{List, [], ◌∷◌, Memᴰ}
use mathlib.Core.List.Memᴰ.{cases_cons, not-nil}
use qms.Base.Tests.{Bool-cases}
use qms.Base.Lists.{All, take, insert_by, sort_by}
use qms.Base.Members.{mem-All, All-map, All-take}

module _ {A : Type 0} (before : A → A → Bool) where
  -- Each row comes before all that follow it.
  abbrev pub Ordered : List A → Type 0
  Ordered [] = Unit {0}
  Ordered (x ∷ xs) = All (λ y. before x y ≡ true) xs × Ordered xs

  abbrev pub last_of : A → List A → A
  last_of x [] = x
  last_of x (y ∷ ys) = last_of y ys

  pub last-All : (Q : A → Type 0) (x : A) (xs : List A) → All Q (x ∷ xs) → Q (last_of x xs)
  last-All Q x [] h = h.0
  last-All Q x (y ∷ ys) h = last-All Q y ys h.1

  pub take-Ordered : (n : ℕ) (xs : List A) → Ordered xs → Ordered (take n xs)
  take-Ordered zero xs h = tt
  take-Ordered (suc n) [] h = tt
  take-Ordered (suc n) (x ∷ xs) h = (All-take _ n xs h.0, take-Ordered n xs h.1)

  after_head :
      (n : ℕ) (x : A) (xs : List A) (a : A)
      → Ordered (x ∷ xs)
      → Memᴰ a xs
      → Memᴰ a (x ∷ take n xs) ⊎ (before (last_of x (take n xs)) a ≡ true)
  after_head n x [] a h k = absurd (not-nil k)
  after_head zero x (y ∷ ys) a h k = inr (mem-All (λ z. before x z ≡ true) a (y ∷ ys) k h.0)
  after_head (suc n) x (y ∷ ys) a h k = elim (cases_cons k) [
    | inl q ↦ inl (Memᴰ.tail (Memᴰ.head q))
    | inr j ↦ elim (after_head n y ys a h.1 j) [ inl i ↦ inl (Memᴰ.tail i) | inr b ↦ inr b ]
  ]

  -- A row of an ordered list stands in its first rows, or the last of these comes before it.
  pub take-or_after :
      (n : ℕ) (x : A) (xs : List A) (a : A)
      → Ordered (x ∷ xs)
      → Memᴰ a (x ∷ xs)
      → Memᴰ a (x ∷ take n xs) ⊎ (before (last_of x (take n xs)) a ≡ true)
  take-or_after n x xs a h m = elim (cases_cons m) [
    | inl q ↦ inl (Memᴰ.head q)
    | inr k ↦ after_head n x xs a h k
  ]

  module _ (total : (x y : A) → before x y ≡ false → before y x ≡ true)
      (trans : (x y z : A) → before x y ≡ true → before y z ≡ true → before x z ≡ true) where
    insert_by-All :
        (Q : A → Type 0) (x : A) (xs : List A) → Q x → All Q xs → All Q (insert_by before x xs)
    unfolding insert_by
    insert_by-All Q x [] q h = (q, tt)
    insert_by-All Q x (y ∷ ys) q h = elim (Bool-cases (before x y)) [
      | inl t ↦ rw t (q, h)
      | inr t ↦ rw t (h.0, insert_by-All Q x ys q h.1)
    ]

    insert_by-Ordered : (x : A) (xs : List A) → Ordered xs → Ordered (insert_by before x xs)
    unfolding insert_by
    insert_by-Ordered x [] h = (tt, tt)
    insert_by-Ordered x (y ∷ ys) h = elim (Bool-cases (before x y)) [
      | inl t ↦ rw t ((t, All-map _ _ (λ z k. trans x y z t k) ys h.0), h)
      | inr t ↦ rw t (insert_by-All _ x ys (total x y t) h.0, insert_by-Ordered x ys h.1)
    ]

    pub sort_by-Ordered : (xs : List A) → Ordered (sort_by before xs)
    unfolding sort_by
    sort_by-Ordered [] = tt
    sort_by-Ordered (x ∷ xs) = insert_by-Ordered x _ (sort_by-Ordered xs)

    reflexive : (x : A) → before x x ≡ true
    reflexive x = elim (Bool-cases (before x x)) [ inl t ↦ t | inr t ↦ total x x t ]

    pub before_last :
        (x : A) (xs : List A)
        → Ordered (x ∷ xs)
        → All (λ y. before y (last_of x xs) ≡ true) (x ∷ xs)
    before_last x [] h = (reflexive x, tt)
    before_last x (y ∷ ys) h = (last-All (λ z. before x z ≡ true) y ys h.0, before_last y ys h.1)
