-- ===== src/Common/Int.antt =====
-- C's signed `int` as an integer over the native numbers. Sums go through the two parts.
use Prim.Native.Nat.{ℕ, suc, ◌+◌, ◌-◌}
use mathlib.Core.Bool.{Bool}
use risc.Common.Tests.{ltb, leb, if◌then◌else◌}

-- `negsuc n` is -(n + 1).
pub data ℤ : Type 0 where
  pos : ℕ → ℤ
  negsuc : ℕ → ℤ

abbrev pub minus_one : ℤ
minus_one = negsuc 0

abbrev pub pos_part : ℤ → ℕ
pos_part (pos n) = n
pos_part (negsuc n) = 0

abbrev pub neg_part : ℤ → ℕ
neg_part (pos n) = 0
neg_part (negsuc n) = suc n

abbrev pub sub_ℕ : ℕ → ℕ → ℤ
sub_ℕ a b = if leb b a then pos (a - b) else negsuc (b - a - 1)

-- `v + 1` and `v - 1`
abbrev pub inc : ℤ → ℤ
inc a = sub_ℕ (pos_part a + 1) (neg_part a)

abbrev pub dec : ℤ → ℤ
dec a = sub_ℕ (pos_part a) (neg_part a + 1)

-- `v < 0`
abbrev pub is_neg : ℤ → Bool
is_neg a = ltb 0 (neg_part a)

-- `v <= 0`
abbrev pub is_nonpos : ℤ → Bool
is_nonpos a = leb (pos_part a) 0

-- `v == 0`
abbrev pub is_zero : ℤ → Bool
is_zero a = leb (pos_part a + neg_part a) 0
