-- ===== src/Common/Bits/Join.antt =====
-- `|` on numbers of any size: the equation for the lowest bit, and `|` field by field.
use Prim.Native.Nat.{ℕ, zero, suc, ◌+◌, ◌*◌, ◌/◌, ◌%◌, ◌≤◌, ◌<◌, ◌^◌, max, digits, bit_or}
use Prim.Native.Nat.{bit_or-bitwise}
use mathlib.Core.Path.{◌≡◌, refl, ap, ◌∙◌}
use native.Mathlib.Nat.{pow-suc}
use native.Mathlib.Omega.{arith}
use jule.Common.Bits.Digits.{bitwise_lowest}

bit_or_lowest : (a b : ℕ) → bit_or a b ≡ 2 * bit_or (a / 2) (b / 2) + max (a % 2) (b % 2)
bit_or_lowest a b = omega (
  arith,
  bitwise_lowest (λ b. b) max (λ b. omega arith) a b,
  bit_or-bitwise a b,
  bit_or-bitwise (a / 2) (b / 2),
)

pub zero-bit_or : (b : ℕ) → bit_or 0 b ≡ b
zero-bit_or b = bit_or-bitwise 0 b

own_digits : (n a : ℕ) → a ≤ n → digits (λ b. b) max n a 0 ≡ a
own_digits zero zero h = refl
own_digits (suc n) zero h = refl
own_digits zero (suc a) h = absurd (omega arith)
own_digits (suc n) (suc a) h = omega (arith, own_digits n (suc a / 2) (omega arith))

pub bit_or-zero : (a : ℕ) → bit_or a 0 ≡ a
bit_or-zero a = bit_or-bitwise a 0 ∙ own_digits a a (omega arith)

double : (a k : ℕ) → a * 2 ^ suc k ≡ 2 * (a * 2 ^ k)
double a k = omega (arith, ap (λ (t : ℕ). a * t) (pow-suc 2 k))

halved : (k a x : ℕ) → (a * 2 ^ suc k + x) / 2 ≡ a * 2 ^ k + x / 2
halved k a x = omega (arith, double a k)

-- Two fields of the same width `k` are joined one by one.
pub bit_or_split :
    (k a c x y : ℕ)
    → x < 2 ^ k
    → y < 2 ^ k
    → bit_or (a * 2 ^ k + x) (c * 2 ^ k + y) ≡ bit_or a c * 2 ^ k + bit_or x y
bit_or_split zero a c zero zero p q = ground (arith, bit_or-zero 0)
bit_or_split zero a c (suc x) y p q = absurd (omega arith)
bit_or_split zero a c zero (suc y) p q = absurd (omega arith)
bit_or_split (suc k) a c x y p q =
    let rest : bit_or ((a * 2 ^ suc k + x) / 2) ((c * 2 ^ suc k + y) / 2)
        ≡ bit_or a c * 2 ^ k + bit_or (x / 2) (y / 2) =
      rw (halved k a x, halved k c y)
        (bit_or_split k a c (x / 2) (y / 2) (omega (arith, pow-suc 2 k))
          (omega (arith, pow-suc 2 k))) in
    omega (
      arith,
      double a k,
      double c k,
      double (bit_or a c) k,
      bit_or_lowest (a * 2 ^ suc k + x) (c * 2 ^ suc k + y),
      bit_or_lowest x y,
      rest,
    )

-- A field shifted past the width of the other operand is added to it.
pub bit_or_above : (k a x : ℕ) → x < 2 ^ k → bit_or (a * 2 ^ k) x ≡ a * 2 ^ k + x
bit_or_above k a x h =
    let split : bit_or (a * 2 ^ k + 0) (0 * 2 ^ k + x) ≡ bit_or a 0 * 2 ^ k + bit_or 0 x =
      bit_or_split k a 0 0 x (omega arith) h in
    ground (arith, split, bit_or-zero a, zero-bit_or x)

-- The lead and continuation bits of UTF-8 are above the bits that they are joined to.
module _ (b : ℕ) where
  pub bit_or_tx : b < 64 → bit_or 128 b ≡ 128 + b
  bit_or_tx = bit_or_above 6 2 b

  pub bit_or_t2 : b < 32 → bit_or 192 b ≡ 192 + b
  bit_or_t2 = bit_or_above 5 6 b

  pub bit_or_t3 : b < 16 → bit_or 224 b ≡ 224 + b
  bit_or_t3 = bit_or_above 4 14 b

  pub bit_or_t4 : b < 8 → bit_or 240 b ≡ 240 + b
  bit_or_t4 = bit_or_above 3 30 b
