-- ===== src/Tests/Text.antt =====
-- UTF-8 (api/utf8.hpp) on concrete texts.
use jule.Common.{ℕ, ◌≡◌, ◌≢◌, ◌↔◌, refl, inl, inr, [], ◌∷◌, ◌++◌, length, arith}
use jule.Utf8.{decode_rune_str, push_rune_bytes}
use jule.Utf8.Tables.{utf8_first, utf8_accept_range}
use jule.Utf8.Standard.{encoding}
use jule.Utf8.Encode.{push-encoding}
use jule.Utf8.Text.{Reads, decode-encoding, decode-Reads}
use jule.Utf8.RoundTrip.{decode-push_iff, decode-push_not_scalar}

-- The euro sign, the last rune of two bytes, and a lone continuation byte.
euro : decode_rune_str (0xE2 ∷ 0x82 ∷ 0xAC ∷ 7 ∷ []) ≡ (0x20AC, 3)
unfolding decode_rune_str utf8_first utf8_accept_range
euro = refl

overlong : push_rune_bytes 2047 [] ≡ 0xE0 ∷ 0x9F ∷ 0xBF ∷ []
unfolding push_rune_bytes
overlong = refl

lone_byte : decode_rune_str (0x82 ∷ 0xAC ∷ []) ≡ (65533, 1)
unfolding decode_rune_str utf8_first utf8_accept_range
lone_byte = refl

negative : push_rune_bytes 0xffff_ffff [] ≡ 0xF0 ∷ 0x8F ∷ 0xBF ∷ 0xBD ∷ []
unfolding push_rune_bytes
negative = refl

decode-Reads_example :
    Reads (0xE2 ∷ 0x82 ∷ 0xAC ∷ 7 ∷ []) (decode_rune_str (0xE2 ∷ 0x82 ∷ 0xAC ∷ 7 ∷ []))
decode-Reads_example = decode-Reads 0xE2 (0x82 ∷ 0xAC ∷ 7 ∷ []) (omega arith)

decode-encoding_example :
    decode_rune_str (encoding 0x1F600 ++ (7 ∷ [])) ≡ (0x1F600, length (encoding 0x1F600))
decode-encoding_example = decode-encoding 0x1F600 (7 ∷ []) (omega arith, inr (omega arith))

push-encoding_example : push_rune_bytes 0x20AC (65 ∷ []) ≡ 65 ∷ encoding 0x20AC
push-encoding_example =
    push-encoding 0x20AC (65 ∷ []) (omega arith, inl (omega arith)) (omega arith)

decode-push_iff_example :
    (decode_rune_str (push_rune_bytes 0x20AC [] ++ (7 ∷ []))
      ≡ (0x20AC, length (push_rune_bytes 0x20AC [])))
    ↔ (◌≢◌ {A = ℕ} 0x20AC 2047)
decode-push_iff_example = decode-push_iff 0x20AC (7 ∷ []) (omega arith, inl (omega arith))

decode-push_not_scalar_example :
    (length (push_rune_bytes 0xD801 []) ≡ 3)
    × (decode_rune_str (push_rune_bytes 0xD801 [] ++ (7 ∷ [])) ≡ (65533, 3))
decode-push_not_scalar_example =
    decode-push_not_scalar 0xD801 (7 ∷ []) (inl (omega arith)) (omega arith)
