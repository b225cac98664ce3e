-- ===== src/Arithmetic.antt =====
-- api/misc.hpp: `/` and `%` of signed integers of `w` bits, with the test for zero. `none` is the
-- undefined behaviour of C++, a quotient that does not fit. Integers of less than 32 bits are `int`
-- where they are divided.
pub mod Quotient
use jule.Common.{
  ℕ, zero, suc, ◌-◌, ◌+◌, ◌/◌, ◌%◌, ◌^◌, Bool, true, false, ◌&&◌, Option, none, some, ltb, leb,
  ◌==◌, if◌then◌else◌,
}
use jule.Common.Int.{ℤ, pos, negsuc, pos_part, neg_part, eq_int}
use jule.Panic.{Outcome, ok, panic, divide_by_zero}

-- The integers of `w` bits.
abbrev pub fits : ℕ → ℤ → Bool
fits w x = ltb (pos_part x) (2 ^ (w - 1)) && leb (neg_part x) (2 ^ (w - 1))

-- The bits in which integers of `w` bits are divided.
abbrev pub promoted : ℕ → ℕ
promoted w = if ltb w 32 then 32 else w

abbrev pub magnitude : ℤ → ℕ
magnitude (pos n) = n
magnitude (negsuc n) = suc n

-- `n` or `-n`
abbrev pub signed : Bool → ℕ → ℤ
signed false n = pos n
signed true zero = pos 0
signed true (suc n) = negsuc n

abbrev pub is_negative : ℤ → Bool
is_negative (pos n) = false
is_negative (negsuc n) = true

abbrev pub differ : Bool → Bool → Bool
differ true b = if b then false else true
differ false b = b

-- C++ rounds the quotient towards zero, and the remainder has the sign of the dividend.
abbrev pub quotient : ℤ → ℤ → ℤ
quotient x y = signed (differ (is_negative x) (is_negative y)) (magnitude x / magnitude y)

abbrev pub remainder : ℤ → ℤ → ℤ
remainder x y = signed (is_negative x) (magnitude x % magnitude y)

-- `unsafe_div` and `unsafe_mod`
pub unsafe_div : ℕ → ℤ → ℤ → Option ℤ
unsafe_div w x denominator =
    if eq_int denominator (pos 0)
    then none
    else if fits (promoted w) (quotient x denominator)
    then some (quotient x denominator)
    else none

pub unsafe_mod : ℕ → ℤ → ℤ → Option ℤ
unsafe_mod w x denominator =
    if eq_int denominator (pos 0)
    then none
    else if fits (promoted w) (quotient x denominator)
    then some (remainder x denominator)
    else none

-- `div` and `mod`
unfoldable pub div : ℕ → ℤ → ℤ → Outcome (Option ℤ)
unfolding unsafe_div
div w x denominator =
    if eq_int denominator (pos 0) then panic divide_by_zero else ok (unsafe_div w x denominator)

unfoldable pub modulo : ℕ → ℤ → ℤ → Outcome (Option ℤ)
unfolding unsafe_mod
modulo w x denominator =
    if eq_int denominator (pos 0) then panic divide_by_zero else ok (unsafe_mod w x denominator)
