-- ===== src/Common/Bits/Xor.antt =====
-- `^` on numbers of a given width: the width is kept, and it tells the second operand.
use Prim.Native.Nat.{ℕ, zero, suc, ◌+◌, ◌*◌, ◌/◌, ◌%◌, ◌<◌, ◌^◌, differ, bit_xor, bit_xor-bitwise}
use mathlib.Core.Path.{◌≡◌, refl}
use native.Mathlib.Nat.{pow-suc}
use native.Mathlib.Omega.{arith}
use jule.Common.Bits.Digits.{bitwise_lowest}

-- The difference of two binary digits.
digit : (a b : ℕ) → a < 2 → b < 2 → differ a b ≡ (a + b) % 2
digit zero b p q = omega arith
digit (suc zero) zero p q = refl
digit (suc zero) (suc zero) p q = refl
digit (suc zero) (suc (suc b)) p q = absurd (omega arith)
digit (suc (suc a)) b p q = absurd (omega arith)

bit_xor_lowest : (a b : ℕ) → bit_xor a b ≡ 2 * bit_xor (a / 2) (b / 2) + (a % 2 + b % 2) % 2
bit_xor_lowest a b = omega (
  arith,
  bitwise_lowest (λ b. b) differ (λ b. omega arith) a b,
  bit_xor-bitwise a b,
  bit_xor-bitwise (a / 2) (b / 2),
  digit (a % 2) (b % 2) (omega arith) (omega arith),
)

pub bit_xor-lt : (k a b : ℕ) → a < 2 ^ k → b < 2 ^ k → bit_xor a b < 2 ^ k
bit_xor-lt zero zero zero p q = omega (arith, bit_xor_lowest 0 0)
bit_xor-lt zero zero (suc b) p q = absurd (omega arith)
bit_xor-lt zero (suc a) b p q = absurd (omega arith)
bit_xor-lt (suc k) a b p q = omega (
  arith,
  pow-suc 2 k,
  bit_xor_lowest a b,
  bit_xor-lt k (a / 2) (b / 2) (omega (arith, pow-suc 2 k)) (omega (arith, pow-suc 2 k)),
)

pub bit_xor_inj : (k s a b : ℕ) → a < 2 ^ k → b < 2 ^ k → bit_xor s a ≡ bit_xor s b → a ≡ b
bit_xor_inj zero s a b p q e = omega arith
bit_xor_inj (suc k) s a b p q e =
    let halves =
      bit_xor_inj k (s / 2) (a / 2) (b / 2) (omega (arith, pow-suc 2 k))
        (omega (arith, pow-suc 2 k)) (omega (arith, bit_xor_lowest s a, bit_xor_lowest s b)) in
    omega (arith, halves, bit_xor_lowest s a, bit_xor_lowest s b)

pub bit_xor_inj_left : (k a b s : ℕ) → a < 2 ^ k → b < 2 ^ k → bit_xor a s ≡ bit_xor b s → a ≡ b
bit_xor_inj_left zero a b s p q e = omega arith
bit_xor_inj_left (suc k) a b s p q e =
    let halves =
      bit_xor_inj_left k (a / 2) (b / 2) (s / 2) (omega (arith, pow-suc 2 k))
        (omega (arith, pow-suc 2 k)) (omega (arith, bit_xor_lowest a s, bit_xor_lowest b s)) in
    omega (arith, halves, bit_xor_lowest a s, bit_xor_lowest b s)
