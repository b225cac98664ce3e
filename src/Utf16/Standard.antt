-- ===== src/Utf16/Standard.antt =====
-- The standard (RFC 2781) in plain arithmetic: the 16-bit units that encode a Unicode scalar value.
-- Nothing here is taken from the program.
use jule.Common.{ℕ, ◌+◌, ◌-◌, ◌/◌, ◌%◌, List, [], ◌∷◌, ◌++◌, ltb, if◌then◌else◌}

abbrev pub encoding16 : ℕ → List ℕ
encoding16 r =
    if ltb r 0x10000
    then r ∷ []
    else (0xD800 + (r - 0x10000) / 0x400) ∷ (0xDC00 + (r - 0x10000) % 0x400) ∷ []

abbrev pub encodings16 : List ℕ → List ℕ
encodings16 [] = []
encodings16 (r ∷ rs) = encoding16 r ++ encodings16 rs
