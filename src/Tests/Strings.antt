-- ===== src/Tests/Strings.antt =====
-- The built-in string (api/str.hpp) on concrete inputs.
use jule.Common.{ℕ, ◌≡◌, refl, inl, true, false, some, List, [], ◌∷◌, arith}
use jule.Utf8.{decode_rune_str}
use jule.Utf8.{runes_to_utf8}
use jule.Utf8.Tables.{utf8_first}
use jule.Utf16.{utf8_to_runes}
use jule.Str.{runes, from_runes, less, greater, equal, runes_loop, compare_runes, first_difference}
use jule.Str.Runes.{runes-from_runes}
use jule.Str.Order.{lex, less-lex, less_incomparable}

less-lex_example :
    (a : List ℕ) × (b : List ℕ) × (runes (65 ∷ []) ≡ some a)
    × (runes (66 ∷ []) ≡ some b)
    × (less (65 ∷ []) (66 ∷ []) ≡ some (lex a b))
    × (greater (65 ∷ []) (66 ∷ []) ≡ some (lex b a))
less-lex_example = less-lex (65 ∷ []) (66 ∷ []) (omega arith) (omega arith)

less_incomparable_example :
    (less (0xFE ∷ 65 ∷ []) (0xFF ∷ 65 ∷ []) ≡ some false)
    × (greater (0xFE ∷ 65 ∷ []) (0xFF ∷ 65 ∷ []) ≡ some false)
    × (equal (0xFE ∷ 65 ∷ []) (0xFF ∷ 65 ∷ []) ≡ false)
less_incomparable_example =
    less_incomparable 0xFE 0xFF (65 ∷ []) (omega arith) (omega arith) (omega arith) (omega arith)
      (omega arith) (omega arith)

a_before_b : less (65 ∷ []) (66 ∷ []) ≡ some true
unfolding less runes runes_loop decode_rune_str utf8_first compare_runes first_difference
a_before_b = refl

b_before_c : less (66 ∷ []) (66 ∷ 67 ∷ []) ≡ some true
unfolding less runes runes_loop decode_rune_str utf8_first compare_runes first_difference
b_before_c = refl

runes-from_runes_example :
    (runes (from_runes (65 ∷ 0x20AC ∷ [])) ≡ some (65 ∷ 0x20AC ∷ []))
    × (utf8_to_runes (runes_to_utf8 (65 ∷ 0x20AC ∷ [])) ≡ some (65 ∷ 0x20AC ∷ []))
runes-from_runes_example = runes-from_runes (65 ∷ 0x20AC ∷ []) (
  ((omega arith, inl (omega arith)), omega arith),
  (((omega arith, inl (omega arith)), omega arith), tt),
)
