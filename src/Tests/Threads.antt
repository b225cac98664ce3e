-- ===== src/Tests/Threads.antt =====
-- Two threads that share a pointer (api/ptr.hpp), and two that share the array of two slices
-- (api/slice.hpp).
use jule.Common.{ℕ, ◌<◌, ◌≡◌, ◌⊎◌, refl, none, some, List, [], ◌∷◌, All, ◌==◌, if◌then◌else◌, arith}
use jule.Memory.{Memory, done, fetch_add}
use jule.Ptr.{get_copy}
use jule.Ptr.Threads.{
  Phase, held, dropped, finished, dealloc_step, Turn, here, there, Crowd, crowd, Moves, stay, next,
  advance, share,
}
use jule.Ptr.Phases.{steps_left}
use jule.Ptr.Interleaving.{threads_safe}
use jule.Slice.Threads.{whole as unbegun, member, Steps, race, destroy_race}
use jule.Tests.Pointers.{one, made, copied}
use jule.Tests.Slices.{heap, whole, tail}

-- One of the two threads has lowered the counter.
abbrev halfway : Crowd ℕ
halfway =
    crowd (record copied.memory { counts = λ c. if c == 1 then some 1 else copied.memory.counts c })
      (held ∷ dropped 2 ∷ [])

Moves-halfway : Moves one (crowd made.memory (held ∷ [])) halfway
unfolding get_copy fetch_add dealloc_step
Moves-halfway = next (next stay (share here (omega arith) refl)) (advance (there here) refl)

threads_safe_example :
    ((a : Phase)
      → Turn a a halfway.phases halfway.phases
      → (b : Phase) × (m' : Memory ℕ) × (dealloc_step one a halfway.memory ≡ done b m')
        × ((a ≡ finished) ⊎ (steps_left b < steps_left a)))
    × (All (λ a. a ≡ finished) halfway.phases
        → (halfway.memory.counts 1 ≡ none) × (halfway.memory.blocks 2 ≡ none))
threads_safe_example = threads_safe one (omega arith) (omega arith) 7 refl refl Moves-halfway

destroy_race_example :
    (m' : Memory (List ℕ)) × Steps whole tail
      (race heap unbegun unbegun)
      (race m' (member finished) (member finished))
    × (m'.counts 1 ≡ none)
    × (m'.blocks ≡ heap.blocks)
destroy_race_example = destroy_race heap whole tail (omega arith) refl refl
