-- ===== src/Tests/Wide.antt =====
-- UTF-16 (api/utf16.hpp) and decimal numbers (api/error.hpp) on concrete inputs.
use jule.Common.{ℕ, ◌≤◌, ◌≡◌, inl, inr, some, List, [], ◌∷◌, ◌++◌, map, All, length, arith}
use jule.Common.Int.{negsuc}
use jule.Utf8.Standard.{IsScalar, encodings}
use jule.Utf8.{runes_to_utf8}
use jule.Utf16.Trip.{utf16_to_utf8_str-utf16_from_str}
use jule.Utf16.{utf16_encode, utf8_to_runes, utf16_from_str, utf16_to_utf8_str}
use jule.Utf16.Encode.{append_all, utf16_encode-append_all}
use jule.Utf16.Decode.{after_trip}
use jule.Utf16.FromStr.{utf8_to_runes_total}
use jule.Error.{push_int_to_str}
use jule.Error.Decimal.{Decimal, push_int_to_str_lem}

utf8_to_runes_total_example :
    (out : List ℕ) × (utf8_to_runes (65 ∷ 0xFF ∷ []) ≡ some out)
    × All IsScalar out
    × (length out ≤ length {A = ℕ} (65 ∷ 0xFF ∷ []))
utf8_to_runes_total_example = utf8_to_runes_total (65 ∷ 0xFF ∷ []) (omega arith)

utf16_to_utf8_str-utf16_from_str_example :
    (u : List ℕ) × (utf16_from_str (encodings (65 ∷ 0x1F600 ∷ [])) ≡ some (u ++ (0 ∷ [])))
    × (utf16_to_utf8_str u ≡ some (runes_to_utf8 (map after_trip (65 ∷ 0x1F600 ∷ []))))
utf16_to_utf8_str-utf16_from_str_example =
    utf16_to_utf8_str-utf16_from_str (65 ∷ 0x1F600 ∷ [])
      ((omega arith, inl (omega arith)), ((omega arith, inr (omega arith)), tt))
      (omega arith, (omega arith, tt))

utf16_encode-append_all_example :
    utf16_encode (65 ∷ 0x1F600 ∷ 0xD800 ∷ []) ≡ some (append_all [] (65 ∷ 0x1F600 ∷ 0xD800 ∷ []))
utf16_encode-append_all_example = utf16_encode-append_all (65 ∷ 0x1F600 ∷ 0xD800 ∷ [])

push_int_to_str_lem_example :
    (ds : List ℕ) × (push_int_to_str [] (negsuc 41) ≡ some ([] ++ (b'-' ∷ ds))) × Decimal 42 ds
push_int_to_str_lem_example = push_int_to_str_lem [] (negsuc 41) (omega arith)
