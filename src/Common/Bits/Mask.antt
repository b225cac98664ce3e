-- ===== src/Common/Bits/Mask.antt =====
-- `&` with a mask of the low bits keeps the low bits.
use Prim.Native.Nat.{
  ℕ, zero, suc, ◌+◌, ◌-◌, ◌*◌, ◌/◌, ◌%◌, ◌<◌, ◌^◌, min, digits, bit_and, bit_and-bitwise,
}
use mathlib.Core.Path.{◌≡◌, refl, ap, ◌∙◌}
use native.Mathlib.Nat.{pow-suc}
use native.Mathlib.Omega.{arith}
use jule.Common.Bits.Digits.{bitwise_lowest}

bit_and_lowest : (a b : ℕ) → bit_and a b ≡ 2 * bit_and (a / 2) (b / 2) + min (a % 2) (b % 2)
bit_and_lowest a b = omega (
  arith,
  bitwise_lowest (λ _. 0) min (λ b. omega arith) a b,
  bit_and-bitwise a b,
  bit_and-bitwise (a / 2) (b / 2),
)

no_digits : (n a : ℕ) → digits (λ _. 0) min n a 0 ≡ 0
no_digits zero a = refl
no_digits (suc n) zero = refl
no_digits (suc n) (suc a) = omega (arith, no_digits n (suc a / 2))

nothing : (a : ℕ) → bit_and a 0 ≡ 0
nothing a = bit_and-bitwise a 0 ∙ no_digits a a

-- A number `q * 2 ^ k + x` is split in its low part `x` and the rest.
pub bit_and_low : (k a q x : ℕ) → a ≡ q * 2 ^ k + x → x < 2 ^ k → bit_and a (2 ^ k - 1) ≡ x
bit_and_low zero a q x e small = omega (arith, nothing a)
bit_and_low (suc k) a q x e small =
    let double : q * 2 ^ suc k ≡ 2 * (q * 2 ^ k) =
      omega (arith, ap (λ (t : ℕ). q * t) (pow-suc 2 k)) in
    let lower = bit_and_low k (a / 2) q (x / 2) (omega arith) (omega (arith, pow-suc 2 k)) in
    let mask : (2 ^ suc k - 1) / 2 ≡ 2 ^ k - 1 = omega (arith, pow-suc 2 k) in
    let odd : (2 ^ suc k - 1) % 2 ≡ 1 = omega (arith, pow-suc 2 k) in
    omega (arith, odd, rw (mask, odd, lower) at (bit_and_lowest a (2 ^ suc k - 1)))

module _ (a : ℕ) where
  pub bit_and_7 : bit_and a 7 ≡ a % 8
  bit_and_7 = bit_and_low 3 a (a / 8) (a % 8) (omega arith) (omega arith)

  pub bit_and_15 : bit_and a 15 ≡ a % 16
  bit_and_15 = bit_and_low 4 a (a / 16) (a % 16) (omega arith) (omega arith)

  pub bit_and_31 : bit_and a 31 ≡ a % 32
  bit_and_31 = bit_and_low 5 a (a / 32) (a % 32) (omega arith) (omega arith)

  pub bit_and_63 : bit_and a 63 ≡ a % 64
  bit_and_63 = bit_and_low 6 a (a / 64) (a % 64) (omega arith) (omega arith)

  pub bit_and_1023 : bit_and a 1023 ≡ a % 1024
  bit_and_1023 = bit_and_low 10 a (a / 1024) (a % 1024) (omega arith) (omega arith)
