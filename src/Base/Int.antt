-- ===== src/Base/Int.antt =====
-- Go's signed integers where the source tests their sign: configuration values and table columns.
use Prim.Native.Nat.{ℕ}
use mathlib.Core.Bool.{Bool, false}
use qms.Base.Tests.{ltb}

-- `negsuc n` is -(n + 1).
pub data ℤ : Type 0 where
  pos : ℕ → ℤ
  negsuc : ℕ → ℤ

-- The value, where it is positive, and 0 elsewhere.
abbrev pub pos_part : ℤ → ℕ
pos_part (pos n) = n
pos_part (negsuc n) = 0

-- `0 < z`
abbrev pub is_positive : ℤ → Bool
is_positive (pos n) = ltb 0 n
is_positive (negsuc n) = false
