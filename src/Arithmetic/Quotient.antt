-- ===== src/Arithmetic/Quotient.antt =====
-- The quotient and the remainder that `div` and `mod` give, and when they give none.
use jule.Common.{
  ℕ, zero, suc, ◌+◌, ◌-◌, ◌*◌, ◌/◌, ◌%◌, ◌^◌, ◌≤◌, ◌<◌, ◌≡◌, ◌≢◌, refl, sym, ap, Bool, true, false,
  some, arith, Bool-cases, inl, inr, ◌⊎◌, ltb,
}
use native.Mathlib.Nat.{div-add-mod, mod-lt, div-le_self, div-lt_self, one-le-pow, pow-le-pow_right}
use native.Mathlib.Decide.{ℕ_discrete}
use jule.Common.Int.{ℤ, pos, negsuc, eq_int}
use jule.Panic.{ok, panic, divide_by_zero}
use jule.Arithmetic.{
  promoted, fits, magnitude, signed, is_negative, differ, quotient, remainder, unsafe_div,
  unsafe_mod, div, modulo,
}

magnitude-signed : (s : Bool) (n : ℕ) → magnitude (signed s n) ≡ n
magnitude-signed false n = refl
magnitude-signed true zero = refl
magnitude-signed true (suc n) = refl

fits-signed :
    (w : ℕ) (s : Bool) (n : ℕ)
    → n ≤ 2 ^ (w - 1)
    → (s ≡ false → n < 2 ^ (w - 1))
    → fits w (signed s n) ≡ true
fits-signed w false n h k = let l = k refl in ground arith
fits-signed w true zero h k = ground (arith, one-le-pow (w - 1) 2 (omega arith))
fits-signed w true (suc n) h k = ground (arith, one-le-pow (w - 1) 2 (omega arith))

magnitude_le : (w : ℕ) (x : ℤ) → fits w x ≡ true → magnitude x ≤ 2 ^ (w - 1)
magnitude_le w (pos n) h = ground arith
magnitude_le w (negsuc n) h = ground arith

-- What fits in the bits of the operands fits in those of the division.
fits-promoted : (w : ℕ) (x : ℤ) → fits w x ≡ true → fits (promoted w) x ≡ true
fits-promoted w x h = elim (Bool-cases (ltb w 32)) [
  | inl narrow ↦
      let wider : 2 ^ (w - 1) ≤ 2 ^ 31 =
        pow-le-pow_right {n = 2} (omega arith) {i = w - 1} {j = 31} (ground arith) in
      rw narrow (ground arith)
  | inr wide ↦ rw wide h
]

is_zero : (y : ℤ) → eq_int y (pos 0) ≡ true → y ≡ pos 0
is_zero (pos n) h = ap pos (ground arith)
is_zero (negsuc n) h = absurd (ground arith)

zero_int : (y : ℤ) → magnitude y ≡ 0 → y ≡ pos 0
zero_int (pos n) h = ap pos h
zero_int (negsuc n) h = absurd (omega arith)

not_zero : (y : ℤ) → eq_int y (pos 0) ≡ false → y ≢ pos 0
not_zero y h e = ground (arith, rw e at h)

-- The one quotient of full magnitude that is positive.
least :
    (w : ℕ) (x y : ℤ)
    → fits w x ≡ true
    → magnitude x ≡ 2 ^ (w - 1)
    → magnitude y ≡ 1
    → differ (is_negative x) (is_negative y) ≡ false
    → (x ≡ signed true (2 ^ (w - 1))) × (y ≡ negsuc 0)
least w (pos n) y fx e one s = absurd (ground arith)
least w (negsuc n) (pos k) fx e one s = absurd (ground arith)
least w (negsuc n) (negsuc zero) fx e one s = (ap (signed true) e, refl)
least w (negsuc n) (negsuc (suc k)) fx e one s = absurd (omega arith)

-- The remainder never overflows, and the quotient only for the least integer by -1.
module _ (w : ℕ) (x y : ℤ) (fx : fits w x ≡ true) (fy : fits w y ≡ true)
    (nz : magnitude y ≢ 0) where
  remainder-fits : fits w (remainder x y) ≡ true
  remainder-fits =
      let small : magnitude x % magnitude y < magnitude y = mod-lt (magnitude x) (omega arith) in
      fits-signed w (is_negative x) (magnitude x % magnitude y)
        (omega (arith, small, magnitude_le w y fy)) (λ _. omega (arith, small, magnitude_le w y fy))

  quotient-fits : (x ≡ signed true (2 ^ (w - 1)) → y ≢ negsuc 0) → fits w (quotient x y) ≡ true
  quotient-fits safe =
      let s = differ (is_negative x) (is_negative y) in
      let q = magnitude x / magnitude y in
      let p = 2 ^ (w - 1) in
      let le : q ≤ p =
        omega (arith, div-le_self (magnitude x) (magnitude y), magnitude_le w x fx) in
      fits-signed w s q le (λ positive. elim (ℕ_discrete q p) [
        | no other ↦ omega arith
        | yes largest ↦
            let whole : magnitude x ≡ p =
              omega (arith, div-le_self (magnitude x) (magnitude y), magnitude_le w x fx) in
            let unit : magnitude y ≡ 1 = elim (ℕ_discrete (magnitude y) 1) [
              | yes one ↦ one
              | no more ↦ absurd (
                  omega (
                    arith,
                    div-lt_self {n = magnitude x} {k = magnitude y}
                        (omega (arith, one-le-pow (w - 1) 2 (omega arith))) (omega arith),
                  ))
            ] in
            let (a, b) = least w x y fx whole unit positive in absurd (safe a b)
      ])

-- For integers of `w` bits, not the least integer by -1: if the divisor is zero, `div` and `mod`
-- panic. Else they give a quotient `q` and a remainder `r` of `w` bits, where the dividend's
-- magnitude is the divisor's times that of `q` and that of `r`, that of `r` is below the divisor's,
-- `r` is zero or has the dividend's sign, and `q` is zero or negative just when the signs of the two
-- differ.
pub div_mod_lem :
    (w : ℕ) (x y : ℤ)
    → fits w x ≡ true
    → fits w y ≡ true
    → (x ≡ signed true (2 ^ (w - 1)) → y ≢ negsuc 0)
    → ((y ≡ pos 0) × (div w x y ≡ panic divide_by_zero) × (modulo w x y ≡ panic divide_by_zero))
      ⊎ ((y ≢ pos 0)
          × (q : ℤ) × (r : ℤ) × (div w x y ≡ ok (some q))
          × (modulo w x y ≡ ok (some r))
          × (fits w q ≡ true)
          × (fits w r ≡ true)
          × (magnitude y * magnitude q + magnitude r ≡ magnitude x)
          × (magnitude r < magnitude y)
          × (r ≡ signed (is_negative x) (magnitude r))
          × (q ≡ signed (differ (is_negative x) (is_negative y)) (magnitude q)))
unfolding div modulo unsafe_div unsafe_mod
div_mod_lem w x y fx fy safe = elim (Bool-cases (eq_int y (pos 0))) [
  | inl z ↦ inl (is_zero y z, rw z refl, rw z refl)
  | inr other ↦
      let nz : magnitude y ≢ 0 = λ e. not_zero y other (zero_int y e) in
      let fit = quotient-fits w x y fx fy nz safe in
      let wide = fits-promoted w (quotient x y) fit in
      let s = differ (is_negative x) (is_negative y) in
      let mq = magnitude-signed s (magnitude x / magnitude y) in
      let mr = magnitude-signed (is_negative x) (magnitude x % magnitude y) in
      inr (
        not_zero y other,
        quotient x y,
        remainder x y,
        rw (other, wide) refl,
        rw (other, wide) refl,
        fit,
        remainder-fits w x y fx fy nz,
        rw (mq, mr) (div-add-mod (magnitude x) (magnitude y)),
        rw mr (mod-lt (magnitude x) (omega arith)),
        ap (signed (is_negative x)) (sym mr),
        ap (signed s) (sym mq),
      )
]
