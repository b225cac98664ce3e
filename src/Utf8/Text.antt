-- ===== src/Utf8/Text.antt =====
-- `utf8_decode_rune_str` against the standard: it reads back exactly the standard encodings.
use jule.Common.{
  ℕ, ◌+◌, ◌*◌, ◌/◌, ◌%◌, ◌≤◌, ◌<◌, ◌≡◌, ◌∙◌, ◌⊎◌, inl, inr, List, [], ◌∷◌, ◌++◌, ltb, ◌||◌, arith,
  Bool-cases, length, All,
}
use native.Mathlib.Decide.{dec_lt}
use jule.Utf8.{decode_rune_str}
use jule.Utf8.Tables.{rune_error}
use jule.Utf8.Standard.{IsScalar, IsByte, encoding}
use jule.Utf8.Decode.{rejects, decode_ascii, decode_bad_lead}
use jule.Utf8.Leads.{
  second_low, second_high, lead_two_short, lead_two, lead_three_short, lead_three, lead_four_short,
  lead_four,
}

-- The standard encoding of any scalar value is read back, whatever text follows it.
module _ (r : ℕ) (rest : List ℕ) where
  read_one : r < 0x80 → decode_rune_str (encoding r ++ rest) ≡ (r, length (encoding r))
  unfolding encoding
  read_one h = ground (arith, decode_ascii r rest)

  read_two : 0x80 ≤ r → r < 0x800 → decode_rune_str (encoding r ++ rest) ≡ (r, length (encoding r))
  unfolding encoding
  read_two lo hi =
      ground (arith, lead_two (192 + r / 64) (omega arith) (omega arith) (128 + r % 64) rest)

  read_three :
      0x800 ≤ r
      → r < 0x10000
      → (r < 0xD800) ⊎ (0xE000 ≤ r)
      → decode_rune_str (encoding r ++ rest) ≡ (r, length (encoding r))
  unfolding encoding
  read_three lo hi gap = ground (
    arith,
    lead_three (224 + r / 4096) (omega arith) (omega arith) (128 + r / 64 % 64) (128 + r % 64) rest,
  )

  read_four :
      0x10000 ≤ r → r < 0x110000 → decode_rune_str (encoding r ++ rest) ≡ (r, length (encoding r))
  unfolding encoding
  read_four lo hi = ground (
    arith,
    lead_four (240 + r / 262144) (omega arith) (omega arith) (128 + r / 4096 % 64)
        (128 + r / 64 % 64) (128 + r % 64) rest,
  )

  -- The standard encoding of a scalar value, with any bytes behind it, is decoded to that value
  -- and the encoding's length.
  pub decode-encoding : IsScalar r → decode_rune_str (encoding r ++ rest) ≡ (r, length (encoding r))
  decode-encoding (fits, gap) = elim (dec_lt r 0x80) [
    | yes a ↦ read_one a
    | no a ↦ elim (dec_lt r 0x800) [
      | yes b ↦ read_two (omega arith) b
      | no b ↦ elim (dec_lt r 0x10000) [
        | yes c ↦ read_three (omega arith) c gap
        | no c ↦ read_four (omega arith) fits
      ]
    ]
  ]

-- The outcome `p` of decoding `s`: the error rune for one byte, or a scalar value whose standard
-- encoding stands at the front of `s`, with its length.
abbrev pub Reads : List ℕ → ℕ × ℕ → Type 0
Reads s p =
    (p ≡ (rune_error, 1))
    ⊎ ((r : ℕ) × (rest : List ℕ) × IsScalar r
        × (s ≡ encoding r ++ rest)
        × (p ≡ (r, length (encoding r))))

Reads-two :
    (b : ℕ) (t : List ℕ)
    → 0xC2 ≤ b
    → b < 0xE0
    → All IsByte t
    → Reads (b ∷ t) (decode_rune_str (b ∷ t))
unfolding encoding
Reads-two b [] lo hi bytes = inl (lead_two_short b lo hi)
Reads-two b (c ∷ t) lo hi bytes = elim (Bool-cases (rejects c)) [
  | inl bad ↦ inl (lead_two b lo hi c t bytes.0 ∙ rw bad)
  | inr good ↦ inr (
    b % 32 * 64 + c % 64,
    t,
    (omega arith, inl (omega arith)),
    ground arith,
    lead_two b lo hi c t bytes.0 ∙ rw good (ground arith),
  )
]

Reads-three :
    (b : ℕ) (t : List ℕ)
    → 0xE0 ≤ b
    → b < 0xF0
    → All IsByte t
    → Reads (b ∷ t) (decode_rune_str (b ∷ t))
unfolding encoding
Reads-three b [] lo hi bytes = inl (lead_three_short b lo hi [] (omega arith))
Reads-three b (c ∷ []) lo hi bytes = inl (lead_three_short b lo hi (c ∷ []) (omega arith))
Reads-three b (c ∷ d ∷ t) lo hi (hc, (hd, ht)) =
    elim (Bool-cases ((ltb c (second_low b) || ltb (second_high b) c) || rejects d)) [
      | inl bad ↦ inl (lead_three b lo hi c d t hc hd ∙ rw bad)
      | inr good ↦ inr (
        b % 16 * 4096 + c % 64 * 64 + d % 64,
        t,
        (omega arith, ground arith),
        ground arith,
        lead_three b lo hi c d t hc hd ∙ rw good (ground arith),
      )
    ]

Reads-four :
    (b : ℕ) (t : List ℕ)
    → 0xF0 ≤ b
    → b < 0xF5
    → All IsByte t
    → Reads (b ∷ t) (decode_rune_str (b ∷ t))
unfolding encoding
Reads-four b [] lo hi bytes = inl (lead_four_short b lo hi [] (omega arith))
Reads-four b (c ∷ []) lo hi bytes = inl (lead_four_short b lo hi (c ∷ []) (omega arith))
Reads-four b (c ∷ d ∷ []) lo hi bytes = inl (lead_four_short b lo hi (c ∷ d ∷ []) (omega arith))
Reads-four b (c ∷ d ∷ e ∷ t) lo hi (hc, (hd, (he, ht))) =
    elim (Bool-cases
      ((ltb c (second_low b) || ltb (second_high b) c) || (rejects d || rejects e))) [
        | inl bad ↦ inl (lead_four b lo hi c d e t hc hd he ∙ rw bad)
        | inr good ↦ inr (
          b % 8 * 262144 + c % 64 * 4096 + d % 64 * 64 + e % 64,
          t,
          (ground arith, inr (ground arith)),
          ground arith,
          lead_four b lo hi c d e t hc hd he ∙ rw good (ground arith),
        )
      ]

-- Decoding any non-empty text of bytes gives either the error rune for one byte, or a scalar
-- value whose standard encoding stands in front of the text, with that encoding's length.
pub decode-Reads :
    (b : ℕ) (t : List ℕ) → All IsByte (b ∷ t) → Reads (b ∷ t) (decode_rune_str (b ∷ t))
unfolding encoding
decode-Reads b t (hb, ht) = elim (dec_lt b 0x80) [
  | yes one ↦
      inr (b, t, (omega arith, inl (omega arith)), ground arith, ground (arith, decode_ascii b t))
  | no h1 ↦ elim (dec_lt b 0xC2) [
    | yes bad ↦ inl (decode_bad_lead b t hb (inl (omega arith, bad)))
    | no h2 ↦ elim (dec_lt b 0xE0) [
      | yes two ↦ Reads-two b t (omega arith) two ht
      | no h3 ↦ elim (dec_lt b 0xF0) [
        | yes three ↦ Reads-three b t (omega arith) three ht
        | no h4 ↦ elim (dec_lt b 0xF5) [
          | yes four ↦ Reads-four b t (omega arith) four ht
          | no h5 ↦ inl (decode_bad_lead b t hb (inr (omega arith)))
        ]
      ]
    ]
  ]
]
