-- ===== src/Notify/Delays.antt =====
-- services/notification-service/internal/worker/worker.go: `retryDelay`.
use native.Mathlib.Nat.{pow-le-pow_right}
use qms.Base.{
  ℕ, ◌-◌, ◌*◌, ◌^◌, ◌%◌, ◌≤◌, ◌<◌, true, ◌≡◌, refl, ap, ◌∙◌, subst, if◌then◌else◌, ltb, leb,
  Bool-cases, inl, inr, arith,
}
use qms.Base.Int.{pos}
use qms.Notify.Delivery.{int64, base, max, at_most_max, retry_delay}

-- Five seconds, doubled at each attempt after the first, and five minutes at most.
abbrev pub doubled : ℕ → ℕ
doubled n = if ltb max (base * 2 ^ (n - 1)) then max else base * 2 ^ (n - 1)

within : (v : ℕ) → v < 9223372036854775808 → v % 18446744073709551616 ≡ v
within v h = omega (arith, h)

below : (v : ℕ) → v < 9223372036854775808 → ltb v 9223372036854775808 ≡ true
below v h = ground arith

int64_within : (v : ℕ) → v < 9223372036854775808 → int64 v ≡ pos v
int64_within v h = rw (within v h) (rw (below v h) refl)

capped : (d : ℕ) → at_most_max (pos d) ≡ pos (if ltb max d then max else d)
capped d = elim (Bool-cases (ltb max d)) [ inl t ↦ rw t refl | inr t ↦ rw t refl ]

product_bound : (k : ℕ) → k ≤ 30 → base * 2 ^ k < 9223372036854775808
product_bound k h = omega (arith, pow-le-pow_right {n = 2} (omega arith) {i = k} {j = 30} h)

one : (n : ℕ) → 1 ≤ n → leb n 1 ≡ true → 1 ≡ n
one n low t = ground arith

-- The delay is five seconds, doubled at each attempt after the first, and five minutes at most, up
-- to the attempt number 31, after which the product wraps around.
pub retry_delay-doubled : (n : ℕ) → 1 ≤ n → n ≤ 31 → retry_delay n ≡ pos (doubled n)
unfolding retry_delay
retry_delay-doubled n low high = elim (Bool-cases (leb n 1)) [
  | inl t ↦ subst (λ (k : ℕ). retry_delay k ≡ pos (doubled k)) (one n low t) refl
  | inr t ↦ rw t (
      ap at_most_max
        (int64_within (base * 2 ^ (n - 1)) (product_bound (n - 1) (omega (arith, high))))
      ∙ capped (base * 2 ^ (n - 1)))
]
