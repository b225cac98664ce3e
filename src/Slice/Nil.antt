-- ===== src/Slice/Nil.antt =====
-- Assigning nil to a slice (api/slice.hpp), and the block that it shares with another slice.
use jule.Common.{
  ℕ, ◌+◌, ◌-◌, ◌%◌, ◌^◌, ◌≡◌, ◌≢◌, ◌↔◌, refl, true, false, none, some, ◌==◌, arith, List,
}
use native.Mathlib.Decide.{ℕ_discrete}
use jule.Memory.{
  Memory, done, ◌>>=◌, ◌>>◌, put, put_same, load_count-some, fetch_add-some, delete_count-some,
  delete_block-some, delete_block,
}
use jule.Ptr.{ptr, nil, dealloc, drop_ref, get_ref_n}
use jule.Slice.{Slice, is_nil, dealloc_slice, free_slice, assign_nil, destroy_slice, null_place}

module _ {A : Type 0} (m : Memory (List A)) (s : Slice) where
  pub dealloc_shared :
      (n : ℕ)
      → s.memory.ref ≢ 0
      → m.counts s.memory.ref ≡ some n
      → n ≢ 1
      → dealloc_slice s m ≡ done (record s { memory = ptr 0 s.memory.ref; len = 0; cap = 0 }) m
  unfolding dealloc_slice get_ref_n
  dealloc_shared n nz e ne =
      let counted : (s.memory.ref == 0) ≡ false = ground arith in
      let several : (n == 1) ≡ false = ground arith in
      rw (counted, load_count-some m s.memory.ref n e, several) refl

  -- With the last reference the counter and the block go.
  pub free_last :
      (m' : Memory (List A))
      → s.memory.ref ≢ 0
      → m.counts s.memory.ref ≡ some 1
      → delete_block s.memory.alloc (record m { counts = put m.counts s.memory.ref none })
        ≡ done tt m'
      → dealloc_slice s m ≡ done (record { memory = nil; items = null_place; len = 0; cap = 0 }) m'
  unfolding dealloc_slice get_ref_n free_slice
  free_last m' nz e gone =
      let counted : (s.memory.ref == 0) ≡ false = ground arith in
      rw
        (counted, load_count-some m s.memory.ref 1 e, delete_count-some m s.memory.ref 1 nz e, gone)
        refl

  destroy_last :
      (m' : Memory (List A))
      → s.memory.ref ≢ 0
      → m.counts s.memory.ref ≡ some 1
      → delete_block s.memory.alloc (record m { counts = put m.counts s.memory.ref none })
        ≡ done tt m'
      → destroy_slice s m ≡ done tt m'
  unfolding destroy_slice dealloc
  destroy_last m' nz e gone = rw (free_last m' nz e gone) refl

  pub destroy_shared :
      (n : ℕ)
      → s.memory.ref ≢ 0
      → m.counts s.memory.ref ≡ some n
      → n ≢ 1
      → destroy_slice s m
        ≡ done tt
            (record m { counts = put m.counts s.memory.ref (some ((n + (2 ^ 64 - 1)) % 2 ^ 64)) })
  unfolding destroy_slice dealloc drop_ref
  destroy_shared n nz e ne =
      let counted : (s.memory.ref == 0) ≡ false = ground arith in
      let several : (n == 1) ≡ false = ground arith in
      rw
        (dealloc_shared n nz e ne, counted, fetch_add-some m s.memory.ref n (2 ^ 64 - 1) e, several)
        refl

-- A slice over an allocated array of the items `xs`, whose counter holds `n`.
pub record Over {A : Type 0} (m : Memory (List A)) (s : Slice) (n : ℕ) (xs : List A) : Type 0 where
  pub counter : s.memory.ref ≢ 0
  pub count : m.counts s.memory.ref ≡ some n
  pub block : s.memory.alloc ≢ 0
  pub allocated : m.blocks s.memory.alloc ≡ some xs
  pub not_nil : s.items.block ≢ 0

-- Assigning nil to a slice over an allocated array, which is not nil, ends with a slice of length
-- zero, which is nil exactly if the array had no other reference.
assign_nil-is_nil :
    {A : Type 0} (m : Memory (List A)) (s : Slice) (n : ℕ) (xs : List A)
    → Over m s n xs
    → (t : Slice) × (m' : Memory (List A)) × (assign_nil s m ≡ done t m')
      × (t.len ≡ 0)
      × ((is_nil t ≡ true) ↔ (n ≡ 1))
unfolding assign_nil is_nil
assign_nil-is_nil m s n xs o = elim (ℕ_discrete n 1) [
  | yes one ↦
      let count = rw one at o.count in
      let gone =
        delete_block-some (record m { counts = put m.counts s.memory.ref none }) s.memory.alloc xs
          o.block o.allocated in
      (_, _, free_last m s _ o.counter count gone, refl, ((λ _. one), λ _. refl))
  | no several ↦ (
    _,
    _,
    dealloc_shared m s n o.counter o.count several,
    refl,
    ((λ e. absurd (ground (arith, o.not_nil))), λ e. absurd (several e)),
  )
]

-- When two slices that are all that refer to an allocated array are destroyed, the array and its
-- counter are freed.
pub destroy_both :
    {A : Type 0} (m : Memory (List A)) (s t : Slice) (xs : List A)
    → Over m s 2 xs
    → t.memory ≡ s.memory
    → (m' : Memory (List A)) × ((destroy_slice s >> destroy_slice t) m ≡ done tt m')
      × (m'.counts s.memory.ref ≡ none)
      × (m'.blocks s.memory.alloc ≡ none)
destroy_both {A} m s t xs o same =
    let c = s.memory.ref in
    let first = destroy_shared m s 2 o.counter o.count (omega arith) in
    let counts = put m.counts c (some 1) in
    let gone =
      delete_block-some (record m { counts = put counts c none }) s.memory.alloc xs o.block
        o.allocated in
    let freed : Memory (List A) = record {
      blocks = put m.blocks s.memory.alloc none;
      counts = put counts c none;
    } in
    let second =
      destroy_last (record m { counts = counts }) t freed (rw same o.counter)
        (rw same (put_same m.counts c (some 1))) (rw same gone) in
    (freed, rw (first, second) refl, put_same counts c none, put_same m.blocks s.memory.alloc none)

-- Of two slices that are all that refer to an allocated array, if nil is assigned to the first
-- and then the second is destroyed before the first, the counter is freed and the array is still
-- allocated, as it was.
pub assign_nil_leaks :
    {A : Type 0} (m : Memory (List A)) (s t : Slice) (xs : List A)
    → Over m s 2 xs
    → t.memory ≡ s.memory
    → (m' : Memory (List A)) × ((assign_nil s >>= λ u. destroy_slice t >> destroy_slice u) m
        ≡ done tt m')
      × (m'.counts s.memory.ref ≡ none)
      × (m'.blocks s.memory.alloc ≡ some xs)
unfolding assign_nil delete_block
assign_nil_leaks {A} m s t xs o same =
    let c = s.memory.ref in
    let cleared = dealloc_shared m s 2 o.counter o.count (omega arith) in
    let counts = put m.counts c (some 1) in
    let first = destroy_shared m t 2 (rw same o.counter) (rw same o.count) (omega arith) in
    let left : Memory (List A) = record m { counts = put counts c none } in
    let second =
      destroy_last (record m { counts = counts }) (record s { memory = ptr 0 c; len = 0; cap = 0 })
        left o.counter (put_same m.counts c (some 1)) refl in
    (left, rw (cleared, first, same, second) refl, put_same counts c none, o.allocated)

-- Destroying a slice without a counter changes nothing.
pub destroy_uncounted :
    {A : Type 0} (m : Memory (List A)) (s : Slice)
    → s.memory.ref ≡ 0
    → destroy_slice s m ≡ done tt m
unfolding destroy_slice dealloc_slice dealloc
destroy_uncounted m s e =
    let none_there : (s.memory.ref == 0) ≡ true = ground arith in rw none_there (rw none_there refl)
