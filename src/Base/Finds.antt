-- ===== src/Base/Finds.antt =====
-- The first row of a table that satisfies a condition.
use mathlib.Core.Path.{◌≡◌, refl, sym, ap}
use mathlib.Core.Logic.{◌≢◌, inl, inr}
use mathlib.Core.Bool.{Bool, true, false}
use mathlib.Core.Option.{none, some}
use mathlib.Core.List.{List, [], ◌∷◌, ◌++◌, Memᴰ}
use mathlib.Core.List.Memᴰ.{cases_cons, not-nil}
use native.Mathlib.Omega.{arith}
use qms.Base.Tests.{Bool-cases}
use qms.Base.Lists.{find, any}

module _ {A : Type 0} where
  pub find-append_one :
      (p : A → Bool) (xs : List A) (x : A)
      → find p xs ≡ none
      → p x ≡ true
      → find p (xs ++ x ∷ []) ≡ some x
  unfolding find
  find-append_one p [] x h e = rw e refl
  find-append_one p (y ∷ ys) x h e = elim (Bool-cases (p y)) [
    | inl t ↦ absurd (cc (rw t at h))
    | inr t ↦ rw t (find-append_one p ys x (rw t at h) e)
  ]

  pub find-append_some :
      (p : A → Bool) (xs ys : List A) (x : A) → find p xs ≡ some x → find p (xs ++ ys) ≡ some x
  unfolding find
  find-append_some p [] ys x h = absurd (cc (h))
  find-append_some p (y ∷ xs) ys x h = elim (Bool-cases (p y)) [
    | inl t ↦ rw t (rw t at h)
    | inr t ↦ rw t (find-append_some p xs ys x (rw t at h))
  ]

  -- Where no row satisfies the weaker condition, none satisfies the stronger.
  pub find-none_of_any :
      (p q : A → Bool) (xs : List A)
      → ((x : A) → q x ≡ true → p x ≡ true)
      → any p xs ≡ false
      → find q xs ≡ none
  unfolding find any
  find-none_of_any p q [] f h = refl
  find-none_of_any p q (x ∷ xs) f h = elim (Bool-cases (q x)) [
    | inl t ↦ absurd (cc (rw (f x t) at h))
    | inr t ↦ rw t (find-none_of_any p q xs f (ground (arith, h)))
  ]

  pub find-mem :
      (p : A → Bool) (xs : List A) (x : A) → find p xs ≡ some x → Memᴰ x xs × (p x ≡ true)
  unfolding find
  find-mem p [] x h = absurd (cc (h))
  find-mem p (y ∷ ys) x h = elim (Bool-cases (p y)) [
    | inl t ↦ let e : y ≡ x = cc (rw t at h) in (Memᴰ.head (sym e), rw (← e) t)
    | inr t ↦ let (m, q) = find-mem p ys x (rw t at h) in (Memᴰ.tail m, q)
  ]

  pub find-ne-none :
      (p : A → Bool) (xs : List A) (x : A) → Memᴰ x xs → p x ≡ true → find p xs ≢ none
  unfolding find
  find-ne-none p [] x m h = absurd (not-nil m)
  find-ne-none p (y ∷ ys) x m h = elim (Bool-cases (p y)) [
    | inl t ↦ λ e. absurd (cc (rw t at e))
    | inr t ↦ elim (cases_cons m) [
      | inl q ↦ absurd (cc (h, t, ap p q))
      | inr k ↦ λ e. find-ne-none p ys x k h (rw t at e)
    ]
  ]

  pub any-find : (p : A → Bool) (xs : List A) (x : A) → find p xs ≡ some x → any p xs ≡ true
  unfolding find any
  any-find p [] x h = absurd (cc (h))
  any-find p (y ∷ ys) x h = elim (Bool-cases (p y)) [
    | inl t ↦ rw t refl
    | inr t ↦ rw t (any-find p ys x (rw t at h))
  ]

  pub any-mem : (p : A → Bool) (xs : List A) (x : A) → Memᴰ x xs → p x ≡ true → any p xs ≡ true
  unfolding any
  any-mem p [] x m h = absurd (not-nil m)
  any-mem p (y ∷ ys) x m h = elim (Bool-cases (p y)) [
    | inl t ↦ rw t refl
    | inr t ↦ elim (cases_cons m) [
      | inl q ↦ absurd (cc (h, t, ap p q))
      | inr k ↦ rw t (any-mem p ys x k h)
    ]
  ]
