-- ===== src/Tests/Printing.antt =====
-- The output of slices and arrays (api/slice.hpp, api/array.hpp).
use jule.Common.{ℕ, ◌+◌, ◌≡◌, refl, ap, List, [], ◌∷◌, ◌++◌, map, get_or, arith}
use jule.Memory.{done}
use jule.Error.{text}
use jule.Output.{joined}
use jule.Output.Sequences.{slice_output, array_items, array_output}
use jule.Output.Sequences.Joined.{sequence_output-joined}
use jule.Tests.Growth.{two_arrays, left, left-Source}

-- One digit.
abbrev digit : ℕ → List ℕ
digit n = (48 + n) ∷ []

printed : array_output digit [] (5 ∷ 6 ∷ []) ≡ text "[5 6]"
unfolding array_output array_items
printed = refl

sequence_output-joined_example :
    (slice_output digit (62 ∷ []) left two_arrays
      ≡ done (array_output digit (62 ∷ []) (5 ∷ 6 ∷ [])) two_arrays)
    × (array_output digit (62 ∷ []) (5 ∷ 6 ∷ [])
        ≡ (62 ∷ []) ++ (text "[" ++ (joined (text " ") (map digit (5 ∷ 6 ∷ [])) ++ text "]")))
sequence_output-joined_example =
    sequence_output-joined digit 0 (62 ∷ []) (5 ∷ 6 ∷ []) left-Source refl
      (λ k h. ap (λ i. get_or (5 ∷ 6 ∷ []) i 0) (omega arith))
