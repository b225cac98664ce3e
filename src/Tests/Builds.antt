-- ===== src/Tests/Builds.antt =====
-- The builds without the tests of indices (api/slice.hpp) and without reference counting
-- (api/ptr.hpp).
use jule.Common.{ℕ, ◌≡◌, ◌⊎◌, refl, none, some, [], ◌∷◌}
use jule.Common.Int.{negsuc}
use jule.Memory.{done, put, put_block}
use jule.Ptr.{Ptr, ptr, get, dealloc, make_instance_with}
use jule.Ptr.Handles.{here}
use jule.Ptr.Program.{World, world, start}
use jule.Unchecked.Slices.{at, at_write}
use jule.Unchecked.Slices.Indices.{at-at_write_unchecked}
use jule.Uncounted.{make_instance}
use jule.Uncounted.Program.{Reach, next, here as stay, make, destroy, nothing_freed}
use jule.Tests.Slices.{heap, tail, tail-In}

-- The index -1 of the last two items of an array of three.
before_the_slice :
    (at tail (negsuc 0) heap ≡ done 5 heap)
    × (at_write tail (negsuc 0) 9 heap
        ≡ done tt (record heap { blocks = put heap.blocks 2 (some (9 ∷ 6 ∷ 7 ∷ [])) }))
before_the_slice = at-at_write_unchecked tail-In (negsuc 0) 9 0

-- One pointer is made, and another one is made and destroyed.
abbrev one : Ptr
one = ptr 2 0

abbrev other : Ptr
other = ptr 3 0

abbrev made : World ℕ
made = world (record { blocks = put (λ a. none) 2 (some 7); counts = λ c. none }) (one ∷ [])

abbrev both : World ℕ
both =
    world (record { blocks = put made.memory.blocks 3 (some 8); counts = λ c. none })
      (other ∷ one ∷ [])

abbrev left : World ℕ
left = world both.memory (one ∷ [])

made_run : make_instance 2 7 (start {T = ℕ}).memory ≡ done one made.memory
unfolding make_instance make_instance_with put_block
made_run = refl

both_run : make_instance 3 8 made.memory ≡ done other both.memory
unfolding make_instance make_instance_with put_block
both_run = refl

left_run : dealloc other both.memory ≡ done (ptr 0 0) both.memory
unfolding dealloc
left_run = refl

Reach-made : Reach (start {T = ℕ}) made
Reach-made = next stay (make 2 7 refl made_run)

Reach-left : Reach made left
Reach-left = next (next stay (make 3 8 refl both_run)) (destroy here left_run)

nothing_freed_example :
    (one.ref ≡ 0)
    × ((one.alloc ≡ 0) ⊎ ((v : ℕ) × (get one left.memory ≡ done v left.memory)))
    × ((c : ℕ) → left.memory.counts c ≡ none)
    × ((a v : ℕ) → made.memory.blocks a ≡ some v → left.memory.blocks a ≡ some v)
nothing_freed_example = nothing_freed Reach-made Reach-left here
