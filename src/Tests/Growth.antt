-- ===== src/Tests/Growth.antt =====
-- Slices that get new arrays (api/slice.hpp, api/builtin.hpp, api/array.hpp, derive/clone.hpp).
use jule.Common.{
  ℕ, ◌+◌, ◌-◌, ◌<◌, ◌≡◌, ◌≢◌, refl, inr, false, none, some, List, [], ◌∷◌, ◌==◌, ltb, if◌then◌else◌,
  get_or, arith,
}
use jule.Common.Int.{pos}
use jule.Memory.{Memory, done}
use jule.Ptr.{ptr}
use jule.Slice.{Slice, place, is_nil, at}
use jule.Slice.Items.{In}
use jule.Slice.Replace.{Held, counted}
use jule.Slice.Grow.{Source, Unused}
use jule.Builtin.{append, copy}
use jule.Builtin.Copying.{shorter, copy-items}
use jule.Builtin.Append.{append_refines}
use jule.Array.{slice}
use jule.Array.Items.{array_slice-items}
use jule.Clone.{clone_slice}
use jule.Clone.Slices.{clone_slice-items}

-- Two arrays, each with one slice over all of it.
abbrev pub two_arrays : Memory (List ℕ)
two_arrays = record {
  blocks = λ a. if a == 2 then some (5 ∷ 6 ∷ []) else (if a == 4 then some (7 ∷ []) else none);
  counts = λ c. if c == 1 then some 1 else (if c == 3 then some 1 else none);
}

abbrev pub left : Slice
left = record { memory = ptr 2 1; items = place 2 0; len = 2; cap = 2 }

abbrev right : Slice
right = record { memory = ptr 4 3; items = place 4 0; len = 1; cap = 1 }

left-In : In two_arrays left (5 ∷ 6 ∷ [])
left-In = record {
  allocated = refl;
  not_nil = omega arith;
  fits = omega arith;
  within = omega arith;
}

right-In : In two_arrays right (7 ∷ [])
right-In = record {
  allocated = refl;
  not_nil = omega arith;
  fits = omega arith;
  within = omega arith;
}

left-Held : Held two_arrays left
left-Held = counted 1 (5 ∷ 6 ∷ []) (omega arith) (omega arith) (omega arith) refl (omega arith) refl

pub left-Source : Source two_arrays left (5 ∷ 6 ∷ [])
left-Source = inr left-In

unused : Unused two_arrays 9 8
unused = record { block_ne = omega arith; ref_ne = omega arith; no_block = refl; no_count = refl }

append_refines_example :
    (t : Slice) × (m' : Memory (List ℕ)) × (append 0 9 8 left right two_arrays ≡ done t m')
    × (t.len ≡ 3)
    × ((i : ℕ)
        → i < 3
        → at t (pos i) m'
          ≡ done
              (if ltb i 2 then get_or (5 ∷ 6 ∷ []) (0 + i) 0 else get_or (7 ∷ []) (0 + (i - 2)) 0)
              m')
append_refines_example =
    append_refines 0 unused left-Source left-Held right-In (omega arith) (omega arith) (omega arith)

copy-items_example :
    (m' : Memory (List ℕ)) × (copy left right two_arrays ≡ done (shorter 1 2) m')
    × ((i : ℕ)
        → i < 2
        → at left (pos i) m'
          ≡ done
              (if ltb i (shorter 1 2)
                then get_or (7 ∷ []) (0 + i) 0
                else get_or (5 ∷ 6 ∷ []) (0 + i) 0)
              m')
    × In m' right (7 ∷ [])
copy-items_example = copy-items 0 left-In right-In (omega arith)

array_slice-items_example :
    (t : Slice) × (m' : Memory (List ℕ)) × (slice 0 9 8 (5 ∷ 6 ∷ 7 ∷ []) (pos 1) (pos 3) two_arrays
      ≡ done t m')
    × (t.len ≡ 2)
    × ((i : ℕ) → i < 2 → at t (pos i) m' ≡ done (get_or (5 ∷ 6 ∷ 7 ∷ []) (1 + i) 0) m')
    × ((b : ℕ) → b ≢ 9 → m'.blocks b ≡ two_arrays.blocks b)
array_slice-items_example =
    array_slice-items 0 unused (5 ∷ 6 ∷ 7 ∷ []) 1 3 (omega arith) (omega arith)

clone_slice-items_example :
    (t : Slice) × (m' : Memory (List ℕ)) × (clone_slice (λ n. n) 0 9 8 left two_arrays ≡ done t m')
    × (t.len ≡ 2)
    × (is_nil t ≡ false)
    × ((i : ℕ) → i < 2 → at t (pos i) m' ≡ done (get_or (5 ∷ 6 ∷ []) (0 + i) 0) m')
    × ((b : ℕ) → b ≢ 9 → m'.blocks b ≡ two_arrays.blocks b)
clone_slice-items_example =
    clone_slice-items (λ n. n) 0 unused left (5 ∷ 6 ∷ []) left-Source (omega arith)
