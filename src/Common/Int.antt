-- ===== src/Common/Int.antt =====
-- `jule::Int` as an integer: `negsuc n` is -(n + 1). Order tests are those of the C++ operators.
use Prim.Native.Nat.{ℕ, suc, ◌+◌, ◌≤◌, ◌<◌}
use mathlib.Core.Bool.{Bool}
use jule.Common.Tests.{ltb, leb, ◌==◌}

pub data ℤ : Type 0 where
  pos : ℕ → ℤ
  negsuc : ℕ → ℤ

abbrev pub pos_part : ℤ → ℕ
pos_part (pos n) = n
pos_part (negsuc n) = 0

abbrev pub neg_part : ℤ → ℕ
neg_part (pos n) = 0
neg_part (negsuc n) = suc n

abbrev pub lt_int : ℤ → ℤ → Bool
lt_int a b = ltb (pos_part a + neg_part b) (pos_part b + neg_part a)

abbrev pub le_int : ℤ → ℤ → Bool
le_int a b = leb (pos_part a + neg_part b) (pos_part b + neg_part a)

infix 50 ◌≤ℤ◌ ◌<ℤ◌
abbrev pub ◌≤ℤ◌ : ℤ → ℤ → Type 0
a ≤ℤ b = pos_part a + neg_part b ≤ pos_part b + neg_part a

abbrev pub ◌<ℤ◌ : ℤ → ℤ → Type 0
a <ℤ b = pos_part a + neg_part b < pos_part b + neg_part a

abbrev pub eq_int : ℤ → ℤ → Bool
eq_int a b = (pos_part a + neg_part b) == (pos_part b + neg_part a)
