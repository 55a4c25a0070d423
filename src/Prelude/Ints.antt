-- ===== src/Prelude/Ints.antt =====
-- Go's `int` and `int64`, as far as the source reads them: their sign and their value.
use Prim.Native.Nat.{ℕ}
use mathlib.Core.Bool.{Bool}
use devhub.Prelude.Tests.{ltb}

-- `negsuc n` is -(n + 1).
pub data ℤ : Type 0 where
  pos : ℕ → ℤ
  negsuc : ℕ → ℤ

abbrev pub pos_part : ℤ → ℕ
pos_part (pos n) = n
pos_part (negsuc n) = 0

-- `x > 0`
abbrev pub is_positive : ℤ → Bool
is_positive x = ltb 0 (pos_part x)
