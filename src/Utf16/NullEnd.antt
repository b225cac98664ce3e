-- ===== src/Utf16/NullEnd.antt =====
-- The result of `utf16_from_str` is ended by a zero unit, and holds no other.
use jule.Common.{ℕ, ◌≡◌, ◌≢◌, some, List, [], ◌∷◌, ◌++◌, ◌==◌, arith, All, Bool-cases, inl, inr}
use jule.Utf8.Standard.{IsScalar, IsByte}
use jule.Utf16.{append_until_zero, append_rune, utf16_from_str}
use jule.Utf16.Pairs.{encode_rune_halves}
use jule.Utf16.Decode.{units, append_rune-units, units_short, units_long}
use jule.Utf16.FromStr.{utf8_to_runes_total, All-append}
use native.Mathlib.Decide.{dec_lt}

abbrev pub NonZero : List ℕ → Type 0
NonZero = All (λ u. u ≢ 0)

units-NonZero : (r : ℕ) → IsScalar r → r ≢ 0 → NonZero (units r)
units-NonZero r (fits, gap) ne = elim (dec_lt r 0x10000) [
  | yes short ↦ rw (units_short r short gap) (ne, tt)
  | no long ↦
      rw (units_long r (omega arith) fits, encode_rune_halves r (omega arith) fits)
        (omega arith, (omega arith, tt))
]

pub append_rune_zero : (buff : List ℕ) → append_rune buff 0 ≡ buff ++ (0 ∷ [])
append_rune_zero buff =
    rw (append_rune-units buff 0, units_short 0 (omega arith) (inl (omega arith)))

abbrev Ended : List ℕ → Type 0
Ended out = (u : List ℕ) × (out ≡ u ++ (0 ∷ [])) × NonZero u

append_until_zero-Ended :
    (runes buff : List ℕ) → All IsScalar runes → NonZero buff → Ended (append_until_zero runes buff)
unfolding append_until_zero
append_until_zero-Ended [] buff h n = (buff, append_rune_zero buff, n)
append_until_zero-Ended (r ∷ runes) buff (h, hs) n = elim (Bool-cases (r == 0)) [
  | inl stop ↦ rw stop (buff, append_rune_zero buff, n)
  | inr more ↦ rw more (
      append_until_zero-Ended runes (append_rune buff r) hs (
        rw (append_rune-units buff r)
          (All-append (λ u. u ≢ 0) buff (units r) n (units-NonZero r h (ground arith)))))
]

-- On every text of bytes `utf16_from_str` ends, and gives units of which the last is zero and no
-- other.
utf16_from_str-Ended :
    (s : List ℕ)
    → All IsByte s
    → (u : List ℕ) × (utf16_from_str s ≡ some (u ++ (0 ∷ []))) × NonZero u
unfolding utf16_from_str
utf16_from_str-Ended s h =
    let (runes, e, scalars, size) = utf8_to_runes_total s h in
    let (u, q, n) = append_until_zero-Ended runes [] scalars tt in (u, rw (e, q), n)
