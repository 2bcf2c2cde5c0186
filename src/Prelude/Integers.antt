-- ===== src/Prelude/Integers.antt =====
-- C++ `int` values, as integers.
use Prim.Native.Nat.{ℕ}

-- `negsuc n` is -(n + 1).
pub data ℤ : Type 0 where
  pos : ℕ → ℤ
  negsuc : ℕ → ℤ

-- The natural number of an integer, 0 for a negative one.
abbrev pub pos_part : ℤ → ℕ
pos_part (pos n) = n
pos_part (negsuc n) = 0
