-- ===== src/Queue/Decimal/Parse.antt =====
-- The numbers of `%0*d` in `CreateTicket`, read back.
use Prim.Native.Char.{code}
use Prim.Native.String.{◌++◌}
use text.Mathlib.TextLemmas.{nil-append, cons-append}
use qms.Base.{
  ℕ, zero, suc, ◌+◌, ◌-◌, ◌*◌, ◌/◌, ◌%◌, ◌<◌, String, ◌≡◌, refl, ◌∙◌, ltb, Bool-cases, inl, inr,
  arith,
}
use qms.Queue.Decimal.{digit, digits_of, decimal, padded}

-- The number that the digits of a text stand for, behind those that were read.
unfoldable pub value_from : ℕ → String → ℕ
value_from acc String.[] = acc
value_from acc (String.◌∷◌ c s) = value_from (acc * 10 + (code c - 48)) s

value-append : (acc : ℕ) (s t : String) → value_from acc (s ++ t) ≡ value_from (value_from acc s) t
unfolding value_from
value-append acc String.[] t = rw (nil-append t)
value-append acc (String.◌∷◌ c s) t =
    rw (cons-append c s t) (value-append (acc * 10 + (code c - 48)) s t)

value-digit : (acc d : ℕ) → d < 10 → value_from acc (digit d) ≡ acc * 10 + d
unfolding value_from digit
value-digit acc zero h = refl
value-digit acc (suc zero) h = refl
value-digit acc (suc (suc zero)) h = refl
value-digit acc (suc (suc (suc zero))) h = refl
value-digit acc (suc (suc (suc (suc zero)))) h = refl
value-digit acc (suc (suc (suc (suc (suc zero))))) h = refl
value-digit acc (suc (suc (suc (suc (suc (suc zero)))))) h = refl
value-digit acc (suc (suc (suc (suc (suc (suc (suc zero))))))) h = refl
value-digit acc (suc (suc (suc (suc (suc (suc (suc (suc zero)))))))) h = refl
value-digit acc (suc (suc (suc (suc (suc (suc (suc (suc (suc zero))))))))) h = refl
value-digit acc (suc (suc (suc (suc (suc (suc (suc (suc (suc (suc n)))))))))) h =
    absurd (omega arith)

value-digits_of : (fuel n : ℕ) → n < fuel → value_from 0 (digits_of fuel n) ≡ n
unfolding digits_of
value-digits_of zero n h = absurd (omega arith)
value-digits_of (suc fuel) n h = elim (Bool-cases (ltb n 10)) [
  | inl e ↦ rw e (value-digit 0 n (ground arith) ∙ omega arith)
  | inr e ↦ rw e (
      value-append 0 (digits_of fuel (n / 10)) (digit (n % 10))
      ∙ value-digit _ (n % 10) (omega arith)
      ∙ omega (arith, value-digits_of fuel (n / 10) (ground arith)))
]

value-decimal : (n : ℕ) → value_from 0 (decimal n) ≡ n
unfolding decimal
value-decimal n = value-digits_of (suc n) n (omega arith)

-- Leading zeros do not count: what `%03d` prints reads back as the number.
pub value-padded : (n : ℕ) → value_from 0 (padded n) ≡ n
unfolding padded value_from
value-padded n = elim (Bool-cases (ltb n 10)) [
  | inl e ↦ rw e (value-append 0 "00" (decimal n) ∙ value-decimal n)
  | inr e ↦ elim (Bool-cases (ltb n 100)) [
    | inl f ↦ rw (e, f) (value-append 0 "0" (decimal n) ∙ value-decimal n)
    | inr f ↦ rw (e, f) (value-decimal n)
  ]
]
