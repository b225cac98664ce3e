-- ===== src/Tests/Process.antt =====
-- The environment that a process is started with (api/env.hpp).
use jule.Common.{
  ℕ, ◌+◌, ◌<◌, ◌≡◌, refl, ap, inl, inr, All, none, List, [], ◌∷◌, get_or, length, arith,
}
use jule.Common.Int.{pos}
use jule.Memory.{Memory, done}
use jule.Slice.{Slice, at}
use jule.Slice.Sequence.Pushes.{Supply}
use jule.Str.{Str}
use jule.Str.Bytes.{from_c_string}
use jule.Utf8.Standard.{encoding}
use jule.Env.{Process, env}
use jule.Env.Entries.{env-items}
use jule.Env.Windows.{env_windows}
use jule.Env.Windows.Texts.{IsName, env_windows-items}

abbrev unallocated : Memory (List Str)
unallocated = record { blocks = λ a. none; counts = λ c. none }

-- The entries "a=1" and "b=".
abbrev process : Process
process = record { argc = 0; argv = []; envp = (97 ∷ 61 ∷ 49 ∷ 0 ∷ []) ∷ (98 ∷ 61 ∷ 0 ∷ []) ∷ [] }

abbrev addresses : ℕ → ℕ × ℕ
addresses j = (j + 1, j + 1)

supply : Supply addresses 0 unallocated
supply = record {
  unused = λ j h. record {
    block_ne = omega arith;
    ref_ne = omega arith;
    no_block = refl;
    no_count = refl;
  };
  other_block = λ j k ne. omega (arith, ne);
  other_ref = λ j k ne. omega (arith, ne);
}

env-items_example :
    (t : Slice) × (m' : Memory (List Str)) × (env addresses process unallocated ≡ done t m')
    × (t.len ≡ 2)
    × ((i : ℕ)
        → i < 2
        → at t (pos i) m' ≡ done (get_or ((97 ∷ 61 ∷ 49 ∷ []) ∷ (98 ∷ 61 ∷ []) ∷ []) i []) m')
unfolding from_c_string
env-items_example =
    env-items process ((97 ∷ 61 ∷ 49 ∷ []) ∷ (98 ∷ 61 ∷ []) ∷ []) (refl, (refl, tt)) supply

-- The texts "a=" and U+1F600.
abbrev names : List (List ℕ)
names = (97 ∷ 61 ∷ []) ∷ (0x1F600 ∷ []) ∷ []

names-IsName : All IsName names
names-IsName = (
  (
    (λ e. absurd (omega (arith, ap length e))),
    (omega arith, (omega arith, tt)),
    (
      (((omega arith, inl (omega arith)), omega arith), inl (omega arith)),
      ((((omega arith, inl (omega arith)), omega arith), inl (omega arith)), tt),
    ),
  ),
  (
    (
      (λ e. absurd (omega (arith, ap length e))),
      (omega arith, tt),
      ((((omega arith, inr (omega arith)), omega arith), inr (omega arith)), tt),
    ),
    tt,
  ),
)

env_windows-items_example :
    (t : Slice) × (m' : Memory (List Str)) × (env_windows addresses
        (97 ∷ 61 ∷ 0 ∷ 0xD83D ∷ 0xDE00 ∷ 0 ∷ 0 ∷ [])
        unallocated
      ≡ done t m')
    × (t.len ≡ 2)
    × ((i : ℕ)
        → i < 2
        → at t (pos i) m'
          ≡ done (get_or ((97 ∷ 61 ∷ []) ∷ (0xF0 ∷ 0x9F ∷ 0x98 ∷ 0x80 ∷ []) ∷ []) i []) m')
unfolding encoding
env_windows-items_example = env_windows-items names names-IsName supply
