-- ===== src/Common/Bits/Digits.antt =====
-- The native bit operations by their lowest binary digit.
use Prim.Native.Nat.{ℕ, zero, suc, ◌+◌, ◌-◌, ◌*◌, ◌/◌, ◌%◌, ◌≤◌, digits, bitwise}
use mathlib.Core.Path.{◌≡◌, refl, ap, ◌∙◌}
use native.Mathlib.Omega.{arith}

module _ (z : ℕ → ℕ) (f : ℕ → ℕ → ℕ) where
  -- A count that covers the first number can be raised by one.
  one_more : (n a b : ℕ) → a ≤ n → digits z f (suc n) a b ≡ digits z f n a b
  one_more zero zero b h = refl
  one_more (suc n) zero b h = refl
  one_more zero (suc a) b h = absurd (omega arith)
  one_more (suc n) (suc a) b h = omega (arith, one_more n (suc a / 2) (b / 2) (omega arith))

  -- It can be raised by any number `j`.
  raise : (j n a b : ℕ) → n ≡ j + a → digits z f n a b ≡ bitwise z f a b
  raise zero n a b e = ap (λ k. digits z f k a b) (omega arith)
  raise (suc j) zero a b e = absurd (omega arith)
  raise (suc j) (suc n) a b e = one_more n a b (omega arith) ∙ raise j n a b (omega arith)

  -- The lowest digit of the result, and the others.
  pub bitwise_lowest :
      ((b : ℕ) → z b ≡ 2 * z (b / 2) + f 0 (b % 2))
      → (a b : ℕ) → bitwise z f a b ≡ 2 * bitwise z f (a / 2) (b / 2) + f (a % 2) (b % 2)
  bitwise_lowest base zero b = base b
  bitwise_lowest base (suc a) b =
      omega (arith, raise (a - suc a / 2) a (suc a / 2) (b / 2) (omega arith))
