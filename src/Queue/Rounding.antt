-- ===== src/Queue/Rounding.antt =====
-- store/postgres/store.go: `appointmentTargetCount`, whose float64 arithmetic gives the nearest whole
-- number.
use native.Mathlib.Nat.{
  pow-suc, div-add-mod', mod-lt, mul-div_cancel, mul-div-mul_left, pow-le-pow_right, mul-le-mul,
  mul-le-mul_left, mul-le-mul_right, le_of_mul-le-mul_left, div-mul-le_self, lt-div-mul-add,
}
use qms.Base.{
  ℕ, zero, suc, ◌+◌, ◌-◌, ◌*◌, ◌/◌, ◌^◌, ◌≤◌, ◌<◌, true, false, ◌≡◌, sym, ◌∙◌, ap, subst, ◌&&◌, ltb,
  leb, Bool-cases, leb→le, inl, inr, arith,
}
use qms.Base.Int.{ℤ, pos, negsuc, pos_part}
use qms.Queue.Doubles.{Double, half_even, bit_length, nearest, double, times, divided_by, round}
use qms.Queue.Routing.{appointment_target_count}

pos_pow : (k : ℕ) → 0 < 2 ^ k
pos_pow k = omega (arith, pow-le-pow_right {n = 2} (omega arith) {i = 0} {j = k} (omega arith))

next_times : (q d : ℕ) → (q + 1) * d ≡ q * d + d
next_times q d = omega arith

half_even_near :
    (n d : ℕ)
    → 0 < d
    → (2 * (half_even n d * d) ≤ 2 * n + d) × (2 * n ≤ 2 * (half_even n d * d) + d)
unfolding half_even
half_even_near n d h = ground (arith, div-add-mod' n d, mod-lt n h, next_times (n / d) d)

bit_length-le : (f k n : ℕ) → n < 2 ^ k → bit_length f n ≤ k
unfolding bit_length
bit_length-le zero k n h = omega arith
bit_length-le (suc f) zero n h = ground arith
bit_length-le (suc f) (suc k) n h =
    ground (arith, bit_length-le f k (n / 2) (omega (arith, h, pow-suc 2 k)))

-- The double is the whole number `x`.
record IsWhole (x : ℕ) (y : Double) : Type 0 where
  same : y.num ≡ x * y.den
  positive : 0 < y.den

above : (a b : ℕ) → leb b a ≡ false → a + 1 ≤ b
above a b h = ground (arith, h)

swap : (x d s : ℕ) → x * d * s ≡ x * s * d
swap x d s = omega arith

flip : (x d : ℕ) → x * d ≡ d * x
flip x d = omega arith

times_one : (x : ℕ) → x * 1 ≡ x
times_one x = omega arith

shuffle : (x y d e : ℕ) → x * d * (y * e) ≡ x * y * (d * e)
shuffle x y d e = omega arith

product_pos : (d e : ℕ) → 0 < d → 0 < e → 0 < d * e
product_pos d e p q = omega (arith, mul-le-mul {n₁ = 1} {m₁ = 1} {n₂ = d} {m₂ = e} p q)

target_nearest :
    (x m t S K : ℕ)
    → S ≡ 2 * K
    → 256 ≤ K
    → 200 * m ≤ 2 * (x * S) + 100
    → 2 * (x * S) ≤ 200 * m + 100
    → t * (2 * S) ≤ 2 * m + S
    → 2 * m + S < t * (2 * S) + 2 * S
    → (200 * t ≤ 2 * x + 100) × (2 * x + 100 < 200 * t + 200)
target_nearest x m t S K e big a b c d = (
  elim (Bool-cases (leb (200 * t) (2 * x + 100))) [
    | inl h ↦ ground (arith, h)
    | inr h ↦
        let k = mul-le-mul_right S (above (2 * x + 100) (200 * t) h) in
        absurd (omega (arith, k, e, big, a, b, c, d))
  ],
  elim (Bool-cases (leb (200 * t + 200) (2 * x + 100))) [
    | inl h ↦
        let k = mul-le-mul_right S (leb→le (200 * t + 200) (2 * x + 100) h) in
        absurd (omega (arith, k, e, big, a, b, c, d))
    | inr h ↦ ground (arith, h)
  ],
)

exact : (m d h : ℕ) → 0 < d → 2 * (h * d) ≤ 2 * (m * d) + d → 2 * (m * d) ≤ 2 * (h * d) + d → h ≡ m
exact m d h p a b = elim (Bool-cases (leb h m)) [
  | inl u ↦ elim (Bool-cases (leb m h)) [
    | inl v ↦ ground (arith, u, v)
    | inr v ↦ absurd (omega (arith, mul-le-mul_right d (above h m v), a, b, p))
  ]
  | inr u ↦ absurd (omega (arith, mul-le-mul_right d (above m h u), a, b, p))
]

half_even_whole : (m d : ℕ) → 0 < d → half_even (m * d) d ≡ m
half_even_whole m d p =
    let (a, b) = half_even_near (m * d) d p in exact m d (half_even (m * d) d) p a b

nearest-IsWhole : (x d : ℕ) → 0 < d → x < 2 ^ 53 → IsWhole x (nearest (x * d) d)
unfolding nearest
nearest-IsWhole x d p h =
    let q : x * d / d ≡ x = mul-div_cancel x p in
    let few : bit_length (suc x) x ≤ 53 = bit_length-le (suc x) 53 x h in
    let fits : leb (bit_length (suc x) x) 53 ≡ true = ground (arith, few) in
    let s = 2 ^ (53 - bit_length (suc x) x) in
    rw (q, fits)
      (record {
        same = ap (λ n. half_even n d) (swap x d s) ∙ half_even_whole (x * s) d p;
        positive = pos_pow (53 - bit_length (suc x) x);
      })

double-IsWhole : (x : ℕ) → x < 2 ^ 53 → IsWhole x (double x)
unfolding double
double-IsWhole x h =
    subst (λ n. IsWhole x (nearest n 1)) (times_one x) (nearest-IsWhole x 1 (omega arith) h)

times-IsWhole :
    (x y : ℕ) (a b : Double)
    → IsWhole x a
    → IsWhole y b
    → x * y < 2 ^ 53
    → IsWhole (x * y) (times a b)
unfolding times
times-IsWhole x y a b p q h =
    subst (λ n. IsWhole (x * y) (nearest n (a.den * b.den)))
      (sym (rw (p.same, q.same) (shuffle x y a.den b.den)))
      (nearest-IsWhole (x * y) (a.den * b.den) (product_pos a.den b.den p.positive q.positive) h)

cancel : (d a b : ℕ) → 0 < d → d * a ≤ d * b → a ≤ b
cancel d a b p h = le_of_mul-le-mul_left h p

-- The quotient that the division keeps is near enough.
rounded :
    (x d m k : ℕ)
    → 0 < d
    → 8 ≤ k
    → 2 * (m * (d * 100)) ≤ 2 * (x * d * 2 ^ suc k) + d * 100
    → 2 * (x * d * 2 ^ suc k) ≤ 2 * (m * (d * 100)) + d * 100
    → let t = (2 * m + 2 ^ suc k) / (2 * 2 ^ suc k) in
      (200 * t ≤ 2 * x + 100) × (2 * x + 100 < 200 * t + 200)
rounded x d m k p big a b =
    let S = 2 ^ suc k in
    let positive : 0 < 2 * S = omega (arith, pos_pow (suc k)) in
    let low : 200 * m ≤ 2 * (x * S) + 100 =
      cancel d (200 * m) (2 * (x * S) + 100) p (omega (arith, a)) in
    let high : 2 * (x * S) ≤ 200 * m + 100 =
      cancel d (2 * (x * S)) (200 * m + 100) p (omega (arith, b)) in
    target_nearest x m ((2 * m + S) / (2 * S)) S (2 ^ k) (omega (arith, pow-suc 2 k))
      (omega (arith, pow-le-pow_right {n = 2} (omega arith) {i = 8} {j = k} big)) low high
      (div-mul-le_self (2 * m + S) (2 * S)) (lt-div-mul-add {a = 2 * m + S} positive)

shift : (b : ℕ) → b ≤ 44 → (k : ℕ) × (53 - b ≡ suc k) × (8 ≤ k)
shift b h = (52 - b, omega (arith, h), omega (arith, h))

round-divided_by :
    (x : ℕ) (y : Double)
    → IsWhole x y
    → x < 2 ^ 50
    → let t = round (divided_by y 100) in (200 * t ≤ 2 * x + 100) × (2 * x + 100 < 200 * t + 200)
unfolding round divided_by nearest
round-divided_by x y whole h =
    let b = bit_length (suc (x / 100)) (x / 100) in
    let few : b ≤ 44 = bit_length-le (suc (x / 100)) 44 (x / 100) (omega (arith, h)) in
    let fits : leb b 53 ≡ true = ground (arith, few) in
    let (k, e, big) = shift b few in
    let same : y.num / (y.den * 100) ≡ x / 100 =
      ap (λ n. n / (y.den * 100)) (whole.same ∙ flip x y.den)
      ∙ mul-div-mul_left {m = y.den} x 100 whole.positive in
    let (low, high) =
      half_even_near (x * y.den * 2 ^ suc k) (y.den * 100) (omega (arith, whole.positive)) in
    rw (same, fits, e, whole.same)
      (rounded x y.den (half_even (x * y.den * 2 ^ suc k) (y.den * 100)) k whole.positive big low
        high)

no_product : (n w : ℕ) → (ltb 0 n && ltb 0 w) ≡ false → n * w ≡ 0
no_product n w h = elim (Bool-cases (ltb 0 n)) [
  | inl t ↦ let e : w ≡ 0 = ground (arith, h, t) in rw e (omega arith)
  | inr t ↦ let e : n ≡ 0 = ground (arith, h, t) in rw e (omega arith)
]

both_positive : (n w : ℕ) → (ltb 0 n && ltb 0 w) ≡ true → (0 < n) × (0 < w)
both_positive n w h = ground (arith, h)

-- The number of appointments that a window aims at, which is computed in doubles, is the whole number
-- nearest to the percentage of the window, halves rounded up, as long as the product of percentage and
-- window is below 2 ^ 50; a negative percentage counts as 0.
pub appointment_target_count_nearest :
    (ratio_percent : ℤ) (window : ℕ)
    → pos_part ratio_percent * window < 2 ^ 50
    → let t = appointment_target_count ratio_percent window in
      let product = pos_part ratio_percent * window in
      (200 * t ≤ 2 * product + 100) × (2 * product + 100 < 200 * t + 200)
unfolding appointment_target_count
appointment_target_count_nearest (pos n) w h = elim (Bool-cases (ltb 0 n && ltb 0 w)) [
  | inl b ↦
      let (p, q) = both_positive n w b in
      let few_n : n < 2 ^ 53 = omega (arith, h, mul-le-mul_left n q) in
      let few_w : w < 2 ^ 53 = omega (arith, h, mul-le-mul_right w p) in
      rw b (
        round-divided_by (n * w) (times (double n) (double w))
          (times-IsWhole n w (double n) (double w) (double-IsWhole n few_n) (double-IsWhole w few_w)
            (omega (arith, h)))
          h)
  | inr b ↦ rw (b, no_product n w b) (ground (arith))
]
appointment_target_count_nearest (negsuc n) w h = ground arith
