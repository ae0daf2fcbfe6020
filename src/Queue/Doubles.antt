-- ===== src/Queue/Doubles.antt =====
-- The float64 arithmetic of `appointmentTargetCount` in store/postgres/store.go, on numbers that are
-- not negative: each operation gives the double nearest to its exact result, ties to even.
use qms.Base.{ℕ, zero, suc, ◌+◌, ◌-◌, ◌*◌, ◌/◌, ◌%◌, ◌^◌, if◌then◌else◌, ◌==◌, ltb, leb}

-- The number `num / den`.
pub record Double : Type 0 where
  pub num : ℕ
  pub den : ℕ

-- The whole number nearest to `n / d`, the even one of two.
unfoldable pub half_even : ℕ → ℕ → ℕ
half_even n d =
    let q = n / d in
    let twice : ℕ = 2 * (n % d) in
    if ltb twice d then q else if ltb d twice then q + 1 else if q % 2 == 0 then q else q + 1

-- The number of binary digits, with a round of fuel for each; `suc n` rounds are enough.
unfoldable pub bit_length : ℕ → ℕ → ℕ
bit_length zero n = 0
bit_length (suc fuel) n = let rest : ℕ = bit_length fuel (n / 2) in if n == 0 then 0 else rest + 1

-- 53 binary digits are kept. Doubles below 1/2 are finer than this, but all of them round to 0.
unfoldable pub nearest : ℕ → ℕ → Double
unfolding half_even bit_length
nearest n d =
    let bits : ℕ = bit_length (suc (n / d)) (n / d) in
    if leb bits 53
    then record { num = half_even (n * 2 ^ (53 - bits)) d; den = 2 ^ (53 - bits) }
    else record { num = half_even n (d * 2 ^ (bits - 53)) * 2 ^ (bits - 53); den = 1 }

-- `float64(n)`
unfoldable pub double : ℕ → Double
unfolding nearest
double n = nearest n 1

unfoldable pub times : Double → Double → Double
unfolding nearest
times x y = nearest (x.num * y.num) (x.den * y.den)

unfoldable pub divided_by : Double → ℕ → Double
unfolding nearest
divided_by x n = nearest x.num (x.den * n)

-- `int(math.Round(x))`, halves away from zero.
unfoldable pub round : Double → ℕ
round x = (2 * x.num + x.den) / (2 * x.den)
