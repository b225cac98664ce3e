-- ===== src/Tests/Pointers.antt =====
-- Counted pointers (api/ptr.hpp) in a short program: one pointer is made and copied.
use jule.Common.{ℕ, ◌+◌, ◌≡◌, ◌⊎◌, refl, none, some, ◌==◌, if◌then◌else◌, [], ◌∷◌, arith}
use jule.Memory.{Memory, done, put_count, put_block, fetch_add, delete_count, delete_block}
use jule.Ptr.{Ptr, ptr, nil, make_instance, get_copy, dealloc, assign, get}
use jule.Ptr.Handles.{here}
use jule.Clone.{clone_ptr}
use jule.Clone.Pointers.{clone_ptr-Reach}
use jule.Ptr.Program.{
  World, world, start, make, copy, destroy, Reach, next, here as stay, IsSafe, Reach-IsSafe,
  held_usable, nothing_leaks,
}

abbrev pub one : Ptr
one = ptr 2 1

abbrev pub made : World ℕ
made =
    world
      (record {
        blocks = λ a. if a == 2 then some 7 else none;
        counts = λ c. if c == 1 then some 1 else none;
      })
      (one ∷ [])

abbrev pub copied : World ℕ
copied =
    world
      (record {
        blocks = λ a. if a == 2 then some 7 else none;
        counts = λ c. if c == 1 then some 2 else (if c == 1 then some 1 else none);
      })
      (one ∷ one ∷ [])

make_run : make_instance 1 2 7 (start {T = ℕ}).memory ≡ done one made.memory
unfolding make_instance put_count put_block
make_run = refl

copy_run : get_copy one made.memory ≡ done one copied.memory
unfolding get_copy fetch_add
copy_run = refl

Reach-made : Reach (start {T = ℕ}) made
Reach-made = next stay (make 1 2 7 (omega arith) (omega arith) refl refl (omega arith) make_run)

pub Reach-copied : Reach (start {T = ℕ}) copied
Reach-copied = next Reach-made (copy here (omega arith) copy_run)

Reach-IsSafe_example : IsSafe copied
Reach-IsSafe_example = Reach-IsSafe Reach-copied

held_usable_example :
    ((m : Memory ℕ) × (dealloc one copied.memory ≡ done nil m))
    × ((m : Memory ℕ) × (get_copy one copied.memory ≡ done one m))
    × ((q : Ptr) × (m : Memory ℕ) × (assign one one copied.memory ≡ done q m)
        × (q.alloc ≡ one.alloc))
    × ((one.alloc ≡ 0) ⊎ ((v : ℕ) × (get one copied.memory ≡ done v copied.memory)))
held_usable_example = held_usable Reach-copied here here (omega arith)

clone_ptr-Reach_example :
    (v : ℕ) × (m : Memory ℕ) × (copied.memory.blocks 2 ≡ some v)
    × (clone_ptr (λ n. n + 1) 5 6 one copied.memory ≡ done (ptr 6 5) m)
    × (m.blocks 6 ≡ some (v + 1))
    × (m.blocks 2 ≡ some v)
    × Reach start (world m (ptr 6 5 ∷ one ∷ one ∷ []))
clone_ptr-Reach_example =
    clone_ptr-Reach (λ n. n + 1) Reach-copied here (omega arith) 5 6 (omega arith) (omega arith)
      refl refl (omega arith)

abbrev destroyed : World ℕ
destroyed =
    world
      (record {
        blocks = λ a. if a == 2 then none else made.memory.blocks a;
        counts = λ c. if c == 1 then none else (if c == 1 then some 0 else made.memory.counts c);
      })
      []

destroy_run : dealloc one made.memory ≡ done nil destroyed.memory
unfolding dealloc fetch_add delete_count delete_block
destroy_run = refl

Reach-destroyed : Reach (start {T = ℕ}) destroyed
Reach-destroyed = next Reach-made (destroy here destroy_run)

nothing_leaks_example : (destroyed.memory.blocks 2 ≡ none) × (destroyed.memory.counts 2 ≡ none)
nothing_leaks_example = nothing_leaks Reach-destroyed refl 2 (omega arith)
