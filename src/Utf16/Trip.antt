-- ===== src/Utf16/Trip.antt =====
-- UTF-8 text made into UTF-16 and back.
use jule.Common.{
  ◌-◌, ◌/◌, ◌%◌, ◌⊎◌, sym, append-nil, append_assoc, true, ltb, ℕ, ◌<◌, ◌^◌, ◌≡◌, refl, ◌∙◌, false,
  some, List, [], ◌∷◌, ◌++◌, map, All, ◌==◌, arith,
}
use native.Mathlib.Decide.{dec_lt}
use jule.Utf8.{runes_to_utf8}
use jule.Utf8.Standard.{IsScalar, encodings}
use jule.Utf16.{to_u16, append_rune, append_until_zero, utf16_from_str, utf16_to_utf8_str}
use jule.Utf16.Pairs.{encode_rune_halves}
use jule.Utf16.Encode.{append_all}
use jule.Utf16.Decode.{
  after_trip, units, append_rune-units, units_short, units_long, append_all-decoded,
}
use jule.Utf16.FromStr.{All-append, utf8_to_runes-encodings}
use jule.Utf16.NullEnd.{NonZero, append_rune_zero}
use jule.Utf16.ToStr.{text_of, utf16_to_utf8_str-text_of}
use jule.Utf16.Standard.{encoding16, encodings16}
use jule.Utf8.Encode.{IsWritable, All-IsScalar, runes_to_utf8-encodings}

-- Without a zero among the runes the loop stops at their end.
append_until_zero-append_all :
    (runes buff : List ℕ)
    → NonZero runes
    → append_until_zero runes buff ≡ append_all buff runes ++ (0 ∷ [])
unfolding append_until_zero append_all
append_until_zero-append_all [] buff nz = append_rune_zero buff
append_until_zero-append_all (r ∷ runes) buff (some_rune, nz) =
    let more : (r == 0) ≡ false = ground (arith, some_rune) in
    rw more (append_until_zero-append_all runes (append_rune buff r) nz)

-- Units of 16 bits.
abbrev Narrow : List ℕ → Type 0
Narrow = All (λ u. u < 2 ^ 16)

units-Narrow : (r : ℕ) → IsScalar r → Narrow (units r)
units-Narrow r (fits, gap) = elim (dec_lt r 0x10000) [
  | yes short ↦ rw (units_short r short gap) (omega arith, tt)
  | no long ↦
      rw (units_long r (omega arith) fits, encode_rune_halves r (omega arith) fits)
        (omega arith, (omega arith, tt))
]

append_all-Narrow :
    (runes out : List ℕ) → All IsScalar runes → Narrow out → Narrow (append_all out runes)
unfolding append_all
append_all-Narrow [] out h n = n
append_all-Narrow (r ∷ runes) out (h, hs) n =
    append_all-Narrow runes (append_rune out r) hs (
      rw (append_rune-units out r)
        (All-append (λ u. u < 2 ^ 16) out (units r) n (units-Narrow r h)))

map-to_u16 : (us : List ℕ) → Narrow us → map to_u16 us ≡ us
map-to_u16 [] n = refl
map-to_u16 (u ∷ us) (h, n) =
    let same : to_u16 u ≡ u = omega arith in rw (same, map-to_u16 us n) refl

-- The standard UTF-8 of scalar values other than 0, made into UTF-16 units with a zero at their end
-- and without it into UTF-8 again, is what the encoder writes for the same runes, but those of the
-- even planes from 2 on 0x10000 too small.
pub utf16_to_utf8_str-utf16_from_str :
    (rs : List ℕ)
    → All IsScalar rs
    → NonZero rs
    → (u : List ℕ) × (utf16_from_str (encodings rs) ≡ some (u ++ (0 ∷ [])))
      × (utf16_to_utf8_str u ≡ some (runes_to_utf8 (map after_trip rs)))
unfolding utf16_from_str
utf16_to_utf8_str-utf16_from_str rs h nz =
    let u = append_all [] rs in
    let narrow = map-to_u16 u (append_all-Narrow rs [] h tt) in
    (
      u,
      rw (utf8_to_runes-encodings rs h) (rw (append_until_zero-append_all rs [] nz) refl),
      utf16_to_utf8_str-text_of u ∙ rw (narrow, append_all-decoded rs [] [] h (λ t. refl)) refl,
    )

-- The units of a scalar value are those of the standard.
units-encoding16 : (r : ℕ) → IsScalar r → units r ≡ encoding16 r
units-encoding16 r (fits, gap) = elim (dec_lt r 0x10000) [
  | yes short ↦
      units_short r short gap ∙ (let below : ltb r 0x10000 ≡ true = ground arith in rw below refl)
  | no long ↦
      let above : ltb r 0x10000 ≡ false = ground arith in
      let low : r % 1024 ≡ (r - 0x10000) % 1024 = omega arith in
      rw (units_long r (omega arith) fits, encode_rune_halves r (omega arith) fits, above, low) refl
]

append_all-encodings16 :
    (rs out : List ℕ) → All IsScalar rs → append_all out rs ≡ out ++ encodings16 rs
unfolding append_all
append_all-encodings16 [] out h = sym (append-nil out)
append_all-encodings16 (r ∷ rs) out (h, hs) =
    append_all-encodings16 rs (append_rune out r) hs
    ∙ rw (append_rune-units out r, units-encoding16 r h)
        (append_assoc out (encoding16 r) (encodings16 rs))

-- A scalar value that the conversion from UTF-16 to UTF-8 keeps: not U+07FF, and in no even plane
-- from 2 on.
abbrev pub IsKept : ℕ → Type 0
IsKept r = IsWritable r × ((r < 0x10000) ⊎ (r / 0x10000 % 2 ≡ 1))

after_trip-kept : (rs : List ℕ) → All IsKept rs → map after_trip rs ≡ rs
after_trip-kept [] h = refl
after_trip-kept (r ∷ rs) ((_, plane), hs) =
    let same : after_trip r ≡ r = ground arith in rw (same, after_trip-kept rs hs) refl

All-IsWritable : (rs : List ℕ) → All IsKept rs → All IsWritable rs
All-IsWritable [] h = tt
All-IsWritable (r ∷ rs) ((writable, _), hs) = (writable, All-IsWritable rs hs)

-- Units of the standard are converted to the bytes of the standard.
pub text_of-encodings16 : (rs : List ℕ) → All IsKept rs → text_of (encodings16 rs) ≡ encodings rs
text_of-encodings16 rs h =
    let writable = All-IsWritable rs h in
    let scalar = All-IsScalar rs writable in
    let written : append_all [] rs ≡ encodings16 rs = append_all-encodings16 rs [] scalar in
    let narrow = map-to_u16 (append_all [] rs) (append_all-Narrow rs [] scalar tt) in
    rw (← written, narrow, append_all-decoded rs [] [] scalar (λ t. refl), after_trip-kept rs h)
      (runes_to_utf8-encodings rs writable)
