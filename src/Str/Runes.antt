-- ===== src/Str/Runes.antt =====
-- The runes of a string: the conversion ends on every string, agrees with `utf8_to_runes`, and
-- undoes the constructor from runes.
use jule.Common.{
  ℕ, zero, suc, ◌≡◌, ◌≤◌, ◌<◌, ◌⊎◌, refl, ◌∙◌, some, List, [], ◌∷◌, ◌++◌, length, drop, All,
}
use jule.Utf8.{decode_rune_str, push_rune_bytes, runes_to_utf8, runes_to_utf8_loop}
use jule.Utf8.Standard.{IsScalar, IsByte, encodings}
use jule.Utf8.Tables.{rune_error}
use jule.Utf8.Decode.{decode_bad_lead}
use jule.Utf8.Encode.{IsWritable}
use jule.Utf16.{to_runes_loop, utf8_to_runes}
use jule.Utf16.FromStr.{utf8_to_runes_total, utf8_to_runes-encodings, utf8_to_runes-runes_to_utf8}
use jule.Str.{Str, runes_loop, runes, append_runes, from_runes}

runes_loop-to_runes_loop :
    (fuel : ℕ) (s : Str) (out : List ℕ) → runes_loop fuel s out ≡ to_runes_loop fuel s out
unfolding runes_loop to_runes_loop
runes_loop-to_runes_loop zero [] out = refl
runes_loop-to_runes_loop (suc fuel) [] out = refl
runes_loop-to_runes_loop zero (b ∷ s) out = refl
runes_loop-to_runes_loop (suc fuel) (b ∷ s) out =
    runes_loop-to_runes_loop fuel (drop (decode_rune_str (b ∷ s)).1 (b ∷ s))
      (out ++ ((decode_rune_str (b ∷ s)).0 ∷ []))

runes-utf8_to_runes : (s : Str) → runes s ≡ utf8_to_runes s
unfolding runes utf8_to_runes
runes-utf8_to_runes s = runes_loop-to_runes_loop (length s) s []

append_runes-loop : (rs buffer : List ℕ) → append_runes rs buffer ≡ runes_to_utf8_loop rs buffer
unfolding append_runes runes_to_utf8_loop
append_runes-loop [] buffer = refl
append_runes-loop (r ∷ rs) buffer = append_runes-loop rs (push_rune_bytes r buffer)

from_runes-runes_to_utf8 : (rs : List ℕ) → from_runes rs ≡ runes_to_utf8 rs
unfolding from_runes runes_to_utf8
from_runes-runes_to_utf8 rs = append_runes-loop rs []

-- The conversion of any string of bytes ends, with scalar values, no more of them than bytes.
pub runes_total :
    (s : Str)
    → All IsByte s
    → (out : List ℕ) × (runes s ≡ some out) × All IsScalar out × (length out ≤ length s)
runes_total s h = rw (runes-utf8_to_runes s) (utf8_to_runes_total s h)

pub runes-encodings : (rs : List ℕ) → All IsScalar rs → runes (encodings rs) ≡ some rs
runes-encodings rs h = runes-utf8_to_runes (encodings rs) ∙ utf8_to_runes-encodings rs h

-- Scalar values other than U+07FF are read again as they were, from a string made from them as its
-- runes and from the text that `runes_to_utf8` writes by `utf8_to_runes`.
pub runes-from_runes :
    (rs : List ℕ)
    → All IsWritable rs
    → (runes (from_runes rs) ≡ some rs) × (utf8_to_runes (runes_to_utf8 rs) ≡ some rs)
runes-from_runes rs h =
    let trip = utf8_to_runes-runes_to_utf8 rs h in
    (rw (from_runes-runes_to_utf8 rs, runes-utf8_to_runes (runes_to_utf8 rs)) trip, trip)

-- A byte that begins no encoding is one U+FFFD, whatever byte it is.
pub runes_bad_lead :
    (b : ℕ) (s : Str)
    → ((128 ≤ b) × (b < 0xC2)) ⊎ (0xF5 ≤ b)
    → b < 256
    → runes (b ∷ s) ≡ runes_loop (length s) s (rune_error ∷ [])
unfolding runes
runes_bad_lead b s bad h = rw (runes_loop, decode_bad_lead b s h bad)
