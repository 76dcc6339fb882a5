-- ===== src/Prelude/Int.antt =====
-- Signed whole numbers, as far as settings files need them: `negsuc n` is -(n + 1).
use Prim.Native.Nat.{suc, zero, ℕ}
use mathlib.Core.Bool.{Bool, false, not, true}

pub data ℤ : Type 0 where
  pos : ℕ → ℤ
  negsuc : ℕ → ℤ

-- `0 < n`
abbrev pub is_positive : ℤ → Bool
is_positive (pos zero) = false
is_positive (pos (suc n)) = true
is_positive (negsuc n) = false

abbrev pub pos_part : ℤ → ℕ
pos_part (pos n) = n
pos_part (negsuc n) = 0

-- A float: NaN, an infinity, or the fraction `n / (d + 1)`, which every other float is.
pub data Float : Type 0 where
  nan infinity minus_infinity : Float
  fraction : ℤ → ℕ → Float

-- `x <= 0`, which does not hold of NaN.
abbrev pub is_le_zero : Float → Bool
is_le_zero nan = false
is_le_zero infinity = false
is_le_zero minus_infinity = true
is_le_zero (fraction n d) = not (is_positive n)
