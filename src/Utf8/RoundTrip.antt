-- ===== src/Utf8/RoundTrip.antt =====
-- One rune written by `utf8_push_rune_bytes` and read by `utf8_decode_rune_str`.
use jule.Common.{
  ℕ, ◌⊎◌, ltb, if◌then◌else◌, true, false, ◌≤◌, ◌<◌, ◌≡◌, ◌≢◌, ◌↔◌, inl, inr, refl, sym, ap, ◌∙◌,
  List, [], ◌++◌, length, arith,
}
use native.Mathlib.Decide.{ℕ_discrete}
use jule.Utf8.{decode_rune_str, push_rune_bytes}
use jule.Utf8.Tables.{rune_error}
use jule.Utf8.Standard.{IsScalar, encoding}
use jule.Utf8.Encode.{IsWritable, push-encoding, push_three, push_surrogate, push_beyond}
use jule.Utf8.Leads.{lead_three, lead_four}
use jule.Utf8.Text.{decode-encoding}

decode-push :
    (r : ℕ) (rest : List ℕ)
    → IsWritable r
    → decode_rune_str (push_rune_bytes r [] ++ rest) ≡ (r, length (push_rune_bytes r []))
decode-push r rest (s, ne) = rw (push-encoding r [] s ne) (decode-encoding r rest s)

-- U+07FF is written as three bytes, which are read as an error.
decode-push_overlong :
    (rest : List ℕ) → decode_rune_str (push_rune_bytes 2047 [] ++ rest) ≡ (rune_error, 1)
decode-push_overlong rest =
    rw (push_three 2047 [] (omega arith) (omega arith) (inl (omega arith)))
      (lead_three 0xE0 (omega arith) (omega arith) 0x9F 0xBF rest (omega arith) (omega arith))

-- Of the scalar values exactly those other than U+07FF are read back, with the length of what the
-- encoder writes for them, whatever bytes follow.
pub decode-push_iff :
    (r : ℕ) (rest : List ℕ)
    → IsScalar r
    → (decode_rune_str (push_rune_bytes r [] ++ rest) ≡ (r, length (push_rune_bytes r [])))
      ↔ (r ≢ 2047)
decode-push_iff r rest s = elim (ℕ_discrete r 2047) [
  | yes e ↦ (
    λ back same.
        let err : rune_error ≡ 2047 =
          sym (ap (λ (p : ℕ × ℕ). p.0) (decode-push_overlong rest))
          ∙ ap (λ (p : ℕ × ℕ). p.0) (rw e at back) in
        absurd (omega arith),
    λ ne. absurd (ne e),
  )
  | no ne ↦ (λ _. ne, λ _. decode-push r rest (s, ne))
]

-- A surrogate is written as U+FFFD, and read back as that, three bytes long.
decode-push_surrogate :
    (r : ℕ) (rest : List ℕ)
    → 0xD800 ≤ r
    → r < 0xE000
    → decode_rune_str (push_rune_bytes r [] ++ rest) ≡ (rune_error, 3)
unfolding encoding
decode-push_surrogate r rest lo hi =
    rw (push_surrogate r [] lo hi)
      (decode-encoding rune_error rest (omega arith, inr (omega arith)))

-- A number past the code points is written as four bytes, which are read as the error rune for
-- one byte.
decode-push_beyond :
    (r : ℕ) (rest : List ℕ)
    → 0x110000 ≤ r
    → (length (push_rune_bytes r []) ≡ 4)
      × (decode_rune_str (push_rune_bytes r [] ++ rest) ≡ (rune_error, 1))
decode-push_beyond r rest lo = rw (push_beyond r [] lo) (
  refl,
  lead_four 0xF0 (omega arith) (omega arith) 0x8F 0xBF 0xBD rest (omega arith) (omega arith)
      (omega arith),
)

-- A number that is no scalar value is read back as the error rune: a surrogate from three bytes, all
-- of them, and a number past the code points from four bytes, of which only the first is taken.
pub decode-push_not_scalar :
    (r : ℕ) (rest : List ℕ)
    → (r < 0xE000) ⊎ (0x110000 ≤ r)
    → 0xD800 ≤ r
    → (length (push_rune_bytes r []) ≡ (if ltb r 0x110000 then 3 else 4))
      × (decode_rune_str (push_rune_bytes r [] ++ rest)
          ≡ (if ltb r 0x110000 then (rune_error, 3) else (rune_error, 1)))
unfolding encoding
decode-push_not_scalar r rest (inl hi) lo =
    let low : ltb r 0x110000 ≡ true = ground arith in
    rw low (rw (push_surrogate r [] lo hi) refl, decode-push_surrogate r rest lo hi)
decode-push_not_scalar r rest (inr beyond) lo =
    let high : ltb r 0x110000 ≡ false = ground arith in rw high (decode-push_beyond r rest beyond)
