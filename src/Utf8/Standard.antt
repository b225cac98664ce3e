-- ===== src/Utf8/Standard.antt =====
-- The standard (RFC 3629) in plain arithmetic: which numbers are Unicode scalar values, and the
-- bytes that encode one. Nothing here is taken from the program.
use jule.Common.{
  ℕ, ◌+◌, ◌/◌, ◌%◌, ◌≤◌, ◌<◌, ◌⊎◌, List, [], ◌∷◌, ◌++◌, ltb, if◌then◌else◌, arith, length,
}

-- A code point that is no surrogate.
abbrev pub IsScalar : ℕ → Type 0
IsScalar r = (r < 0x110000) × ((r < 0xD800) ⊎ (0xE000 ≤ r))

abbrev pub IsByte : ℕ → Type 0
IsByte b = b < 256

unfoldable pub encoding : ℕ → List ℕ
encoding r =
    if ltb r 0x80
    then r ∷ []
    else if ltb r 0x800
    then (192 + r / 64) ∷ (128 + r % 64) ∷ []
    else if ltb r 0x10000
    then (224 + r / 4096) ∷ (128 + r / 64 % 64) ∷ (128 + r % 64) ∷ []
    else (240 + r / 262144) ∷ (128 + r / 4096 % 64) ∷ (128 + r / 64 % 64) ∷ (128 + r % 64) ∷ []

pub length-encoding : (r : ℕ) → (1 ≤ length (encoding r)) × (length (encoding r) ≤ 4)
unfolding encoding
length-encoding r = ground arith

abbrev pub encodings : List ℕ → List ℕ
encodings [] = []
encodings (r ∷ rs) = encoding r ++ encodings rs
