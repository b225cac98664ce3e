-- ===== src/Utf8/Decode.antt =====
-- What `utf8_decode_rune_str` returns, in plain arithmetic, class by class of the first byte.
use jule.Common.{
  ℕ, ◌+◌, ◌*◌, ◌/◌, ◌%◌, ◌^◌, ◌≤◌, ◌<◌, ◌≡◌, ◌⊎◌, refl, List, [], ◌∷◌, bit_and, bit_or, ltb, leb,
  Bool, false, if◌then◌else◌, arith, ◌||◌, length,
}
use jule.Common.Bits.{
  bit_and_63, bit_and_31, bit_and_15, bit_and_7, bit_or_above, bit_or-zero, zero-bit_or, same_table,
  agree,
}
use jule.Utf8.{char_to_i32, decode_rune_str}
use jule.Utf8.Tables.{utf8_first, utf8_accept_range, rune_error}

-- The table `utf8_first` as a ladder of ranges.
abbrev lead_class : ℕ → ℕ
lead_class b =
    if ltb b 0x80
    then 240
    else if ltb b 0xC2
    then 241
    else if ltb b 0xE0
    then 2
    else if ltb b 0xE1
    then 19
    else if ltb b 0xED
    then 3
    else if ltb b 0xEE
    then 35
    else if ltb b 0xF0
    then 3
    else if ltb b 0xF1
    then 52
    else if ltb b 0xF4
    then 4
    else if ltb b 0xF5
    then 68
    else 241

pub utf8_first_lem : (b : ℕ) → b < 256 → utf8_first b ≡ lead_class b
unfolding utf8_first same_table
utf8_first_lem b h = agree 256 utf8_first lead_class refl b h

bit_and_ones : (b : ℕ) → b < 128 → bit_and (char_to_i32 b) 0xffff_ffff ≡ b
unfolding same_table
bit_and_ones b h = agree 128 (λ x. bit_and (char_to_i32 x) 0xffff_ffff) (λ x. x) refl b h

bit_and_none : (b : ℕ) → b < 256 → bit_and (char_to_i32 b) 0 ≡ 0
unfolding same_table
bit_and_none b h = agree 256 (λ x. bit_and (char_to_i32 x) 0) (λ _. 0) refl b h

module _ (b : ℕ) (t : List ℕ) where
  pub decode_ascii : b < 128 → decode_rune_str (b ∷ t) ≡ (b, 1)
  unfolding decode_rune_str
  decode_ascii h =
      let e : utf8_first b ≡ 240 = ground (arith, utf8_first_lem b) in
      rw e (ground (arith, bit_and_ones b, bit_or-zero b))

  pub decode_bad_lead :
      b < 256 → ((128 ≤ b) × (b < 0xC2)) ⊎ (0xF5 ≤ b) → decode_rune_str (b ∷ t) ≡ (rune_error, 1)
  unfolding decode_rune_str
  decode_bad_lead h out =
      let e : utf8_first b ≡ 241 = ground (arith, utf8_first_lem b) in
      rw e (ground (arith, bit_and_none b, zero-bit_or 65533))

-- A byte that is no continuation byte.
abbrev pub rejects : ℕ → Bool
rejects c = ltb c 128 || ltb 191 c

join_two : (x y : ℕ) → x < 2 ^ 6 → y < 2 ^ 6 → bit_or (x * 2 ^ 6) y ≡ x * 64 + y
join_two x y hx hy = bit_or_above 6 x y hy

join_three :
    (x y z : ℕ)
    → y < 64
    → z < 64
    → bit_or (bit_or (x * 2 ^ 12) (y * 2 ^ 6)) z ≡ x * 4096 + y * 64 + z
join_three x y z hy hz =
    let high : bit_or (x * 2 ^ 12) (y * 2 ^ 6) ≡ (x * 64 + y) * 2 ^ 6 =
      omega (arith, bit_or_above 12 x (y * 2 ^ 6) (omega arith)) in
    rw high (omega (arith, bit_or_above 6 (x * 64 + y) z hz))

join_four :
    (x y z w : ℕ)
    → y < 64
    → z < 64
    → w < 64
    → bit_or (bit_or (bit_or (x * 2 ^ 18) (y * 2 ^ 12)) (z * 2 ^ 6)) w
      ≡ x * 262144 + y * 4096 + z * 64 + w
join_four x y z w hy hz hw =
    let high : bit_or (x * 2 ^ 18) (y * 2 ^ 12) ≡ (x * 64 + y) * 2 ^ 12 =
      omega (arith, bit_or_above 18 x (y * 2 ^ 12) (omega arith)) in
    rw high (omega (arith, join_three (x * 64 + y) z w hz hw))

-- A lead byte of class `x`: `x` is no marker of a single byte, and its high half selects the range
-- of the second byte.
module _ (b x l h : ℕ) (byte : b < 256) (class : utf8_first b ≡ x) (many : leb 240 x ≡ false)
    (second : utf8_accept_range (x / 16) ≡ record { lo = l; hi = h }) where
  module _ (size : bit_and x 7 ≡ 2) where
    pub decode_two_short : decode_rune_str (b ∷ []) ≡ (rune_error, 1)
    unfolding decode_rune_str
    decode_two_short = rw (class, many, size) (ground arith)

    pub decode_two :
        (c : ℕ) (t : List ℕ)
        → c < 256
        → decode_rune_str (b ∷ c ∷ t)
          ≡ (if ltb c l || ltb h c then (rune_error, 1) else (b % 32 * 64 + c % 64, 2))
    unfolding decode_rune_str
    decode_two c t hc =
        rw (class, many, size, second)
          (ground (arith, bit_and_31 b, bit_and_63 c, join_two (b % 32) (c % 64)))

  module _ (size : bit_and x 7 ≡ 3) where
    pub decode_three_short : (t : List ℕ) → length t ≤ 1 → decode_rune_str (b ∷ t) ≡ (rune_error, 1)
    unfolding decode_rune_str
    decode_three_short t short = rw (class, many, size) (ground arith)

    pub decode_three :
        (c d : ℕ) (t : List ℕ)
        → c < 256
        → d < 256
        → decode_rune_str (b ∷ c ∷ d ∷ t) ≡ (
            if (ltb c l || ltb h c) || rejects d
            then (rune_error, 1)
            else (b % 16 * 4096 + c % 64 * 64 + d % 64, 3))
    unfolding decode_rune_str
    decode_three c d t hc hd =
        rw (class, many, size, second)
          (ground (
            arith,
            bit_and_15 b,
            bit_and_63 c,
            bit_and_63 d,
            join_three (b % 16) (c % 64) (d % 64),
          ))

  module _ (size : bit_and x 7 ≡ 4) where
    pub decode_four_short : (t : List ℕ) → length t ≤ 2 → decode_rune_str (b ∷ t) ≡ (rune_error, 1)
    unfolding decode_rune_str
    decode_four_short t short = rw (class, many, size) (ground arith)

    pub decode_four :
        (c d e : ℕ) (t : List ℕ)
        → c < 256
        → d < 256
        → e < 256
        → decode_rune_str (b ∷ c ∷ d ∷ e ∷ t) ≡ (
            if (ltb c l || ltb h c) || (rejects d || rejects e)
            then (rune_error, 1)
            else (b % 8 * 262144 + c % 64 * 4096 + d % 64 * 64 + e % 64, 4))
    unfolding decode_rune_str
    decode_four c d e t hc hd he =
        rw (class, many, size, second)
          (ground (
            arith,
            bit_and_7 b,
            bit_and_63 c,
            bit_and_63 d,
            bit_and_63 e,
            join_four (b % 8) (c % 64) (d % 64) (e % 64),
          ))
