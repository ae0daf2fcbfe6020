-- ===== src/Queue/Decimal.antt =====
-- `%d` and `%0*d` of package fmt for the numbers that the store prints, which are not negative.
pub mod Parse
use Prim.Native.String.{◌++◌}
use qms.Base.{ℕ, zero, suc, ◌+◌, ◌-◌, ◌*◌, ◌/◌, ◌%◌, String, ◌==◌, ltb, if◌then◌else◌}

unfoldable pub digit : ℕ → String
digit d =
    if d == 0
    then "0"
    else if d == 1
    then "1"
    else if d == 2
    then "2"
    else if d == 3
    then "3"
    else if d == 4
    then "4"
    else if d == 5
    then "5"
    else if d == 6
    then "6"
    else if d == 7
    then "7"
    else if d == 8
    then "8"
    else "9"

-- The digits of `n`, with a round of fuel for each; `suc n` rounds are enough.
unfoldable pub digits_of : ℕ → ℕ → String
unfolding digit
digits_of zero n = ""
digits_of (suc fuel) n =
    let rest = digits_of fuel (n / 10) in if ltb n 10 then digit n else rest ++ digit (n % 10)

-- `%d`
unfoldable pub decimal : ℕ → String
unfolding digits_of
decimal n = digits_of (suc n) n

-- `%0*d` with the width 3 of `ticketNumberPad`.
unfoldable pub padded : ℕ → String
padded n = if ltb n 10 then "00" ++ decimal n else if ltb n 100 then "0" ++ decimal n else decimal n
