-- ===== src/Utf8/Leads.antt =====
-- `utf8_decode_rune_str` by the number of bytes that the first byte announces.
use jule.Common.{
  ℕ, ◌+◌, ◌*◌, ◌%◌, ◌/◌, ◌≤◌, bit_and, false, leb, ◌<◌, ◌≡◌, refl, inl, inr, List, [], ◌∷◌, ltb,
  ◌==◌, ◌||◌, if◌then◌else◌, arith, Bool-cases, length,
}
use jule.Utf8.{decode_rune_str}
use jule.Utf8.Tables.{utf8_first, utf8_accept_range, rune_error}
use jule.Utf8.Decode
use jule.Utf8.Decode.{utf8_first_lem, rejects}

-- The range of the second byte after a lead byte of three or of four bytes.
abbrev pub second_low : ℕ → ℕ
second_low b = if b == 0xE0 then 0xA0 else if b == 0xF0 then 0x90 else 0x80

abbrev pub second_high : ℕ → ℕ
second_high b = if b == 0xED then 0x9F else if b == 0xF4 then 0x8F else 0xBF

module _ (b : ℕ) (lo : 0xC2 ≤ b) (hi : b < 0xE0) where
  class_two : utf8_first b ≡ 2
  class_two = ground (arith, utf8_first_lem b)

  pub lead_two_short : decode_rune_str (b ∷ []) ≡ (rune_error, 1)
  unfolding utf8_accept_range
  lead_two_short = Decode.decode_two_short b 2 128 191 (omega arith) class_two refl refl refl

  pub lead_two :
      (c : ℕ) (t : List ℕ)
      → c < 256
      → decode_rune_str (b ∷ c ∷ t)
        ≡ (if rejects c then (rune_error, 1) else (b % 32 * 64 + c % 64, 2))
  unfolding utf8_accept_range
  lead_two = Decode.decode_two b 2 128 191 (omega arith) class_two refl refl refl

-- The table entry of a lead byte that announces `n` bytes.
abbrev Class : ℕ → ℕ → Type 0
Class n b =
    (x : ℕ) × (utf8_first b ≡ x)
    × (leb 240 x ≡ false)
    × (utf8_accept_range (x / 16) ≡ record { lo = second_low b; hi = second_high b })
    × (bit_and x 7 ≡ n)

Class-three : (b : ℕ) → 0xE0 ≤ b → b < 0xF0 → Class 3 b
unfolding utf8_accept_range
Class-three b lo hi = elim (Bool-cases (b == 0xE0)) [
  | inl e ↦ (19, ground (arith, utf8_first_lem b), refl, ground arith, refl)
  | inr n ↦ elim (Bool-cases (b == 0xED)) [
    | inl e ↦ (35, ground (arith, utf8_first_lem b), refl, ground arith, refl)
    | inr m ↦ (3, ground (arith, utf8_first_lem b), refl, ground arith, refl)
  ]
]

Class-four : (b : ℕ) → 0xF0 ≤ b → b < 0xF5 → Class 4 b
unfolding utf8_accept_range
Class-four b lo hi = elim (Bool-cases (b == 0xF0)) [
  | inl e ↦ (52, ground (arith, utf8_first_lem b), refl, ground arith, refl)
  | inr n ↦ elim (Bool-cases (b == 0xF4)) [
    | inl e ↦ (68, ground (arith, utf8_first_lem b), refl, ground arith, refl)
    | inr m ↦ (4, ground (arith, utf8_first_lem b), refl, ground arith, refl)
  ]
]

module _ (b : ℕ) (lo : 0xE0 ≤ b) (hi : b < 0xF0) where
  pub lead_three_short : (t : List ℕ) → length t ≤ 1 → decode_rune_str (b ∷ t) ≡ (rune_error, 1)
  lead_three_short =
      let (x, first, many, second, size) = Class-three b lo hi in
      Decode.decode_three_short b x _ _ (omega arith) first many second size

  pub lead_three :
      (c d : ℕ) (t : List ℕ)
      → c < 256
      → d < 256
      → decode_rune_str (b ∷ c ∷ d ∷ t) ≡ (
          if (ltb c (second_low b) || ltb (second_high b) c) || rejects d
          then (rune_error, 1)
          else (b % 16 * 4096 + c % 64 * 64 + d % 64, 3))
  lead_three =
      let (x, first, many, second, size) = Class-three b lo hi in
      Decode.decode_three b x _ _ (omega arith) first many second size

module _ (b : ℕ) (lo : 0xF0 ≤ b) (hi : b < 0xF5) where
  pub lead_four_short : (t : List ℕ) → length t ≤ 2 → decode_rune_str (b ∷ t) ≡ (rune_error, 1)
  lead_four_short =
      let (x, first, many, second, size) = Class-four b lo hi in
      Decode.decode_four_short b x _ _ (omega arith) first many second size

  pub lead_four :
      (c d e : ℕ) (t : List ℕ)
      → c < 256
      → d < 256
      → e < 256
      → decode_rune_str (b ∷ c ∷ d ∷ e ∷ t) ≡ (
          if (ltb c (second_low b) || ltb (second_high b) c) || (rejects d || rejects e)
          then (rune_error, 1)
          else (b % 8 * 262144 + c % 64 * 4096 + d % 64 * 64 + e % 64, 4))
  lead_four =
      let (x, first, many, second, size) = Class-four b lo hi in
      Decode.decode_four b x _ _ (omega arith) first many second size
