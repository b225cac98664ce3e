-- ===== src/Utf8/Encode.antt =====
-- What `utf8_push_rune_bytes` writes, in plain arithmetic, for every rune.
use jule.Common.{
  ℕ, ◌+◌, ◌/◌, ◌%◌, ◌≤◌, ◌<◌, ◌≡◌, ◌≢◌, ◌⊎◌, sym, ◌∙◌, append-nil, append_assoc, All, List, [], ◌∷◌,
  ◌++◌, bit_or, arith,
}
use native.Mathlib.Decide.{dec_lt}
use jule.Common.Bits.{bit_and_63, bit_or_tx, bit_or_t2, bit_or_t3, bit_or_t4}
use jule.Utf8.{continuation, to_u8, push_long, push_rune_bytes, runes_to_utf8, runes_to_utf8_loop}
use jule.Utf8.Tables.{t2, t3, t4, rune_error}
use jule.Utf8.Standard.{IsScalar, encoding, encodings}

continuation_lem : (x : ℕ) → continuation x ≡ 128 + x % 64
continuation_lem x = ground (arith, bit_and_63 (x % 256), bit_or_tx (x % 64))

lead2 : (x : ℕ) → x < 32 → to_u8 (bit_or t2 (to_u8 x)) ≡ 192 + x
lead2 x h = ground (arith, bit_or_t2 (x % 256))

lead3 : (x : ℕ) → x < 16 → to_u8 (bit_or t3 (to_u8 x)) ≡ 224 + x
lead3 x h = ground (arith, bit_or_t3 (x % 256))

lead4 : (x : ℕ) → x < 8 → to_u8 (bit_or t4 (to_u8 x)) ≡ 240 + x
lead4 x h = ground (arith, bit_or_t4 (x % 256))

abbrev pub three : ℕ → List ℕ
three r = (224 + r / 4096) ∷ (128 + r / 64 % 64) ∷ (128 + r % 64) ∷ []

abbrev pub four : ℕ → List ℕ
four r = (240 + r / 262144) ∷ (128 + r / 4096 % 64) ∷ (128 + r / 64 % 64) ∷ (128 + r % 64) ∷ []

push_long-three :
    (i r : ℕ) (dest : List ℕ) → i ≤ 65535 → r ≤ 65535 → push_long i r dest ≡ dest ++ three r
unfolding push_long
push_long-three i r dest hi hr =
    ground (arith, lead3 (r / 4096), continuation_lem (r / 64), continuation_lem r)

push_long-four :
    (i r : ℕ) (dest : List ℕ) → 65535 < i → r ≤ 1114111 → push_long i r dest ≡ dest ++ four r
unfolding push_long
push_long-four i r dest hi hr = ground (
  arith,
  lead4 (r / 262144),
  continuation_lem (r / 4096),
  continuation_lem (r / 64),
  continuation_lem r,
)

module _ (r : ℕ) (dest : List ℕ) where
  push_one : r ≤ 127 → push_rune_bytes r dest ≡ dest ++ encoding r
  unfolding push_rune_bytes encoding
  push_one h = ground arith

  push_two : 127 < r → r < 2047 → push_rune_bytes r dest ≡ dest ++ encoding r
  unfolding push_rune_bytes encoding
  push_two lo hi = ground (arith, lead2 (r / 64), continuation_lem r)

  -- Runes from U+07FF on that fit 16 bits take three bytes, also U+07FF itself.
  pub push_three :
      2047 ≤ r → r ≤ 65535 → (r < 0xD800) ⊎ (0xE000 ≤ r) → push_rune_bytes r dest ≡ dest ++ three r
  unfolding push_rune_bytes
  push_three lo hi s = ground (arith, push_long-three r r dest)

  push_four : 65535 < r → r < 0x110000 → push_rune_bytes r dest ≡ dest ++ four r
  unfolding push_rune_bytes
  push_four lo hi = ground (arith, push_long-four r r dest)

  -- A surrogate is written as U+FFFD.
  pub push_surrogate :
      0xD800 ≤ r → r < 0xE000 → push_rune_bytes r dest ≡ dest ++ encoding rune_error
  unfolding push_rune_bytes encoding
  push_surrogate lo hi = ground (arith, push_long-three r rune_error dest)

  -- A number past the code points is written as U+FFFD in four bytes.
  pub push_beyond : 0x110000 ≤ r → push_rune_bytes r dest ≡ dest ++ four rune_error
  unfolding push_rune_bytes
  push_beyond lo = ground (arith, push_long-four r rune_error dest)

  three-encoding : 2047 < r → r ≤ 65535 → encoding r ≡ three r
  unfolding encoding
  three-encoding lo hi = ground arith

  four-encoding : 65535 < r → encoding r ≡ four r
  unfolding encoding
  four-encoding lo = ground arith

  -- A scalar value other than U+07FF is appended in its standard encoding.
  pub push-encoding : IsScalar r → r ≢ 2047 → push_rune_bytes r dest ≡ dest ++ encoding r
  push-encoding (fits, gap) ne = elim (dec_lt r 128) [
    | yes a ↦ push_one (omega arith)
    | no a ↦ elim (dec_lt r 2047) [
      | yes b ↦ push_two (omega arith) b
      | no b ↦ elim (dec_lt r 65536) [
        | yes c ↦
            rw (three-encoding (omega arith) (omega arith))
              (push_three (omega arith) (omega arith) gap)
        | no c ↦ rw (four-encoding (omega arith)) (push_four (omega arith) fits)
      ]
    ]
  ]

-- A scalar value that `utf8_push_rune_bytes` writes in its standard encoding.
abbrev pub IsWritable : ℕ → Type 0
IsWritable r = IsScalar r × (r ≢ 2047)

pub All-IsScalar : (rs : List ℕ) → All IsWritable rs → All IsScalar rs
All-IsScalar [] h = tt
All-IsScalar (r ∷ rs) (h, hs) = (h.0, All-IsScalar rs hs)

runes_to_utf8_loop-encodings :
    (rs buffer : List ℕ) → All IsWritable rs → runes_to_utf8_loop rs buffer ≡ buffer ++ encodings rs
unfolding runes_to_utf8_loop
runes_to_utf8_loop-encodings [] buffer h = sym (append-nil buffer)
runes_to_utf8_loop-encodings (r ∷ rs) buffer (h, hs) =
    runes_to_utf8_loop-encodings rs (push_rune_bytes r buffer) hs
    ∙ rw (push-encoding r buffer h.0 h.1, append_assoc buffer (encoding r) (encodings rs))

-- Such runes are written one after the other in their standard encodings.
pub runes_to_utf8-encodings : (rs : List ℕ) → All IsWritable rs → runes_to_utf8 rs ≡ encodings rs
unfolding runes_to_utf8
runes_to_utf8-encodings rs h = runes_to_utf8_loop-encodings rs [] h
