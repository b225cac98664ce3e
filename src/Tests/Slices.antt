-- ===== src/Tests/Slices.antt =====
-- Two slices over one array (api/slice.hpp): all three items of it, and the last two.
use jule.Common.{ℕ, ◌≡◌, refl, none, some, ◌==◌, if◌then◌else◌, arith, List, [], ◌∷◌}
use jule.Common.Int.{pos}
use jule.Memory.{Memory, done, ◌>>=◌, ◌>>◌, put}
use jule.Ptr.{ptr}
use jule.Slice.{Slice, place, empty, slice, at, at_write, assign_nil, destroy_slice}
use jule.Slice.Items.{In, at-at_write_shared}
use jule.Slice.Subslice.{at-slice_items}
use jule.Slice.Nil.{Over, destroy_both, assign_nil_leaks}

abbrev pub heap : Memory (List ℕ)
heap = record {
  blocks = λ a. if a == 2 then some (5 ∷ 6 ∷ 7 ∷ []) else none;
  counts = λ c. if c == 1 then some 2 else none;
}

abbrev pub whole : Slice
whole = record { memory = ptr 2 1; items = place 2 0; len = 3; cap = 3 }

abbrev pub tail : Slice
tail = record { memory = ptr 2 1; items = place 2 1; len = 2; cap = 2 }

whole-In : In heap whole (5 ∷ 6 ∷ 7 ∷ [])
whole-In = record {
  allocated = refl;
  not_nil = omega arith;
  fits = omega arith;
  within = omega arith;
}

pub tail-In : In heap tail (5 ∷ 6 ∷ 7 ∷ [])
tail-In = record {
  allocated = refl;
  not_nil = omega arith;
  fits = omega arith;
  within = omega arith;
}

whole-Over : Over heap whole 2 (5 ∷ 6 ∷ 7 ∷ [])
whole-Over = record {
  counter = omega arith;
  count = refl;
  block = omega arith;
  allocated = refl;
  not_nil = omega arith;
}

at-at_write_shared_example :
    (at_write whole (pos 2) 9 >> at tail (pos 1)) heap
    ≡ done 9 (record heap { blocks = put heap.blocks 2 (some (5 ∷ 6 ∷ 9 ∷ [])) })
unfolding empty
at-at_write_shared_example = at-at_write_shared whole-In tail-In refl (pos 2) (pos 1) 9

at-slice_items_example :
    (slice whole (pos 1) (pos 3) >>= λ t. at t (pos 1)) heap
    ≡ done 7 (record heap { counts = put heap.counts 1 (some 3) })
at-slice_items_example =
    at-slice_items whole-In 2 (omega arith) refl 1 3 1 0 (omega arith) (omega arith)

destroy_both_example :
    (m' : Memory (List ℕ)) × ((destroy_slice whole >> destroy_slice tail) heap ≡ done tt m')
    × (m'.counts 1 ≡ none)
    × (m'.blocks 2 ≡ none)
destroy_both_example = destroy_both heap whole tail _ whole-Over refl

assign_nil_leaks_example :
    (m' : Memory (List ℕ)) × ((assign_nil whole >>= λ u. destroy_slice tail >> destroy_slice u) heap
      ≡ done tt m')
    × (m'.counts 1 ≡ none)
    × (m'.blocks 2 ≡ some (5 ∷ 6 ∷ 7 ∷ []))
assign_nil_leaks_example = assign_nil_leaks heap whole tail _ whole-Over refl

abbrev front : Slice
front = record { memory = ptr 2 1; items = place 2 0; len = 2; cap = 3 }

front-In : In heap front (5 ∷ 6 ∷ 7 ∷ [])
front-In = record {
  allocated = refl;
  not_nil = omega arith;
  fits = omega arith;
  within = omega arith;
}
