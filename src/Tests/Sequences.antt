-- ===== src/Tests/Sequences.antt =====
-- A program over a slice (api/slice.hpp) that starts nil.
use jule.Common.{ℕ, ◌+◌, ◌≡◌, refl, none, some, List, [], ◌∷◌, arith}
use jule.Common.Int.{pos}
use jule.Memory.{Memory, done}
use jule.Slice.{Slice, nil_slice}
use jule.Slice.Sequence.{Lists, nil-Lists}
use jule.Slice.Sequence.Pushes.{Supply}
use jule.Slice.Sequence.Programs.{Op, add, read, write, exchange, run, replay, Agrees, run-Agrees}
use jule.Unchecked.Programs.{run_unchecked, run_unchecked-replay}

abbrev no_memory : Memory (List ℕ)
no_memory = record { blocks = λ a. none; counts = λ c. none }

abbrev addresses : ℕ → ℕ × ℕ
addresses j = (j + 1, j + 1)

supply : Supply addresses 0 no_memory
supply = record {
  unused = λ j h. record {
    block_ne = omega arith;
    ref_ne = omega arith;
    no_block = refl;
    no_count = refl;
  };
  other_block = λ j k ne. omega (arith, ne);
  other_ref = λ j k ne. omega (arith, ne);
}

abbrev program : List (Op ℕ)
program = add 5 ∷ add 6 ∷ write (pos 0) 7 ∷ exchange (pos 0) (pos 1) ∷ read (pos 0) ∷ []

answers : replay 0 program [] ≡ some (6 ∷ 7 ∷ [], 6 ∷ [])
unfolding replay
answers = refl

run-Agrees_example : Agrees 0 (replay 0 program []) (run 0 addresses 0 program nil_slice no_memory)
run-Agrees_example = run-Agrees 0 program 0 no_memory nil_slice [] supply (nil-Lists 0 no_memory)

run_unchecked-replay_example :
    (t : Slice) × (m' : Memory (List ℕ)) × (run 0 addresses 0 program nil_slice no_memory
      ≡ done (t, 6 ∷ []) m')
    × (run_unchecked 0 addresses 0 program nil_slice no_memory ≡ done (t, 6 ∷ []) m')
    × Lists 0 m' t (6 ∷ 7 ∷ [])
run_unchecked-replay_example =
    run_unchecked-replay 0 program 0 no_memory nil_slice [] (6 ∷ 7 ∷ []) (6 ∷ []) supply
      (nil-Lists 0 no_memory) answers
