-- ===== src/Utf16/ToStr.antt =====
-- The conversion of UTF-16 units to UTF-8.
use jule.Common.{ℕ, ◌≡◌, refl, some, List, map}
use jule.Utf8.{runes_to_utf8}
use jule.Utf16.{to_u16, utf16_to_utf8_str}
use jule.Utf16.Decode.{decoded, utf16_decode-decoded}

-- What the code's decoding and encoding make of a list of units.
abbrev pub text_of : List ℕ → List ℕ
text_of units = runes_to_utf8 (decoded (map to_u16 units))

pub utf16_to_utf8_str-text_of : (units : List ℕ) → utf16_to_utf8_str units ≡ some (text_of units)
unfolding utf16_to_utf8_str
utf16_to_utf8_str-text_of units = rw (utf16_decode-decoded (map to_u16 units)) refl
