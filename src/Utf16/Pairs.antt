-- ===== src/Utf16/Pairs.antt =====
-- Surrogate pairs: what `utf16_encode_rune` and `utf16_decode_rune` compute.
use jule.Common.{
  ℕ, ◌+◌, ◌-◌, ◌*◌, ◌/◌, ◌%◌, ◌≤◌, ◌<◌, ◌≡◌, refl, bit_or, ◌==◌, if◌then◌else◌, arith,
}
use jule.Common.Bits.{bit_and_1023, bit_or_split, zero-bit_or, same_table, agree}
use jule.Utf16.{decode_rune, encode_rune}

-- The two halves of a rune past the 16-bit range, in plain arithmetic.
pub encode_rune_halves :
    (r : ℕ)
    → 0x10000 ≤ r
    → r < 0x110000
    → encode_rune r ≡ (0xd800 + (r - 0x10000) / 1024, 0xdc00 + r % 1024)
unfolding encode_rune
encode_rune_halves r lo hi =
    ground (arith, bit_and_1023 ((r - 0x10000) / 1024), bit_and_1023 (r - 0x10000))

join_64 : (h : ℕ) → h < 1024 → bit_or h 64 ≡ (if h / 64 % 2 == 1 then h else h + 64)
unfolding same_table
join_64 h lt = agree 1024 (λ h. bit_or h 64) (λ h. if h / 64 % 2 == 1 then h else h + 64) refl h lt

-- What a pair of surrogates is read as. The `|` joins the bit 16 that the high half may bring
-- with the one of `surr_self`, where a sum would carry.
decode_rune_pair :
    (h l : ℕ)
    → h < 1024
    → l < 1024
    → decode_rune (0xd800 + h) (0xdc00 + l)
      ≡ (if h / 64 % 2 == 1 then h * 1024 + l else h * 1024 + l + 0x10000)
unfolding decode_rune
decode_rune_pair h l hh hl =
    ground (arith, bit_or_split 10 h 64 0 l (omega arith) hl, zero-bit_or l, join_64 h hh)

-- Encoding a rune past the 16-bit range and decoding the pair gives the rune in every other plane,
-- and a rune 0x10000 too small in the planes between.
pub decode-encode_rune :
    (r : ℕ)
    → 0x10000 ≤ r
    → r < 0x110000
    → decode_rune (encode_rune r).0 (encode_rune r).1
      ≡ (if r / 0x10000 % 2 == 1 then r else r - 0x10000)
decode-encode_rune r lo hi =
    rw (encode_rune_halves r lo hi)
      (ground (arith, decode_rune_pair ((r - 0x10000) / 1024) (r % 1024)))
