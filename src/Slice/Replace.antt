-- ===== src/Slice/Replace.antt =====
-- A slice that takes over a new array (api/slice.hpp), as `push` and `append` do: `operator=`, and
-- then the destructor of the slice that was assigned.
use jule.Common.{
  ℕ, ◌+◌, ◌-◌, ◌%◌, ◌^◌, ◌<◌, ◌≡◌, ◌≢◌, inl, inr, refl, ap, ◌∙◌, true, false, some, none, ◌==◌,
  arith, List, Bool-cases,
}
use native.Mathlib.Decide.{ℕ_discrete}
use jule.Memory.{Memory, done, ◌>>=◌, ◌>>◌, put, put_same, put_other, delete_block-some}
use jule.Ptr.{ptr, nil, assign, get_copy, dealloc}
use jule.Ptr.Fresh.{counting, assign_nil_lem, dealloc_many}
use jule.Slice.{
  Slice, null_place, is_nil, assign_slice, get_copy_slice, dealloc_slice, destroy_slice, copy_slice,
}
use jule.Slice.Nil.{dealloc_shared, free_last, destroy_shared}

-- A slice without an array, or with one that is in use, over an allocated array.
pub data Held {A : Type 0} (m : Memory (List A)) (s : Slice) : Type 0 where
  uncounted : s.memory.ref ≡ 0 → s.memory.alloc ≡ 0 → Held m s
  counted :
      (n : ℕ) (xs : List A)
      → s.memory.ref ≢ 0
      → n ≢ 0
      → n + 1 < 2 ^ 64
      → m.counts s.memory.ref ≡ some n
      → s.memory.alloc ≢ 0
      → m.blocks s.memory.alloc ≡ some xs
      → Held m s

-- The old array may go, and nothing else changes in the blocks.
abbrev pub Kept : {A : Type 0} → Memory (List A) → Slice → Memory (List A) → Type 0
Kept m s m' = (b : ℕ) → b ≢ s.memory.alloc → m'.blocks b ≡ m.blocks b

-- Writing to an array leaves a slice held.
pub Held-holding :
    {A : Type 0} {m : Memory (List A)} {s : Slice} (b : ℕ) {ys : List A} (zs : List A)
    → m.blocks b ≡ some ys
    → Held m s
    → Held (record m { blocks = put m.blocks b (some zs) }) s
Held-holding b zs e (uncounted z null) = uncounted z null
Held-holding {m} {s} b zs e (counted n xs nz some_refs bound count block held) =
    elim (ℕ_discrete s.memory.alloc b) [
      | yes same ↦
          counted n zs nz some_refs bound count block
            (ap (put m.blocks b (some zs)) same ∙ put_same m.blocks b (some zs))
      | no other ↦
          counted n xs nz some_refs bound count block
            (put_other m.blocks b s.memory.alloc (some zs) other ∙ held)
    ]

-- The length of a slice has no part in it.
pub Held-longer :
    {A : Type 0} {m : Memory (List A)} {s : Slice} {n : ℕ}
    → Held m s
    → Held m (record s { len = n })
Held-longer (uncounted z null) = uncounted z null
Held-longer (counted n xs nz some_refs bound count block held) =
    counted n xs nz some_refs bound count block held

module _ {A : Type 0} (m : Memory (List A)) (s new : Slice) (ref : new.memory.ref ≢ 0)
    (block : new.memory.alloc ≢ 0) (items : new.items.block ≢ 0)
    (apart : new.memory.ref ≢ s.memory.ref) (one : m.counts new.memory.ref ≡ some 1)
    (other : s.memory.alloc ≢ new.memory.alloc) where
  -- What is left once the old reference is given up, in the memory `m2`.
  rest :
      (m1 m2 : Memory (List A)) (t : Slice)
      → assign t.memory new.memory m1 ≡ assign nil new.memory m2
      → m2.counts new.memory.ref ≡ some 1
      → (u : Memory (List A)) × ((get_copy_slice t new >>= λ v. destroy_slice {A = A} new >> done v)
            m1
          ≡ done new u)
        × (u.counts new.memory.ref ≡ some 1)
        × (u.blocks ≡ m2.blocks)
        × ((k : ℕ) → k ≢ new.memory.ref → u.counts k ≡ m2.counts k)
  unfolding get_copy_slice is_nil
  rest m1 m2 t given c =
      let named : (new.items.block == 0) ≡ false = ground arith in
      let m3 = counting m2 new.memory.ref 2 in
      (
        counting m3 new.memory.ref 1,
        rw named (
            rw given (
              rw (assign_nil_lem m2 new.memory 1 ref c) (
                rw
                  (destroy_shared m3 new 2 ref (put_same m2.counts new.memory.ref (some 2))
                    (omega arith))
                  refl))),
        put_same m3.counts new.memory.ref (some 1),
        refl,
        λ k ne.
            put_other m3.counts new.memory.ref k (some 1) ne
            ∙ put_other m2.counts new.memory.ref k (some 2) ne,
      )

  assign_dropped :
      (c n : ℕ)
      → c ≢ 0
      → m.counts c ≡ some n
      → n ≢ 1
      → assign (ptr 0 c) new.memory m
        ≡ assign nil new.memory (counting m c ((n + (2 ^ 64 - 1)) % 2 ^ 64))
  unfolding assign
  assign_dropped c n nz e many = rw (dealloc_many m (ptr 0 c) n nz e many) refl

  assign_slice_other :
      (t : Slice) (m1 : Memory (List A))
      → dealloc_slice s m ≡ done t m1
      → assign_slice s new m ≡ get_copy_slice t new m1
  unfolding assign_slice
  assign_slice_other t m1 run =
      let different : (s.memory.alloc == new.memory.alloc) ≡ false = ground arith in
      rw different (elim (Bool-cases (s.memory.alloc == 0)) [
        | inl z ↦ rw z (rw run refl)
        | inr z ↦ rw z (rw run refl)
      ])

  -- The slice becomes the new one, which is then its array's one reference.
  pub replace_lem :
      Held m s
      → (m' : Memory (List A)) × ((assign_slice s new >>= λ v. destroy_slice {A = A} new >> done v)
            m
          ≡ done new m')
        × (m'.counts new.memory.ref ≡ some 1)
        × Kept m s m'
        × ((k : ℕ) → k ≢ s.memory.ref → k ≢ new.memory.ref → m'.counts k ≡ m.counts k)
  unfolding dealloc_slice
  replace_lem (uncounted z null) =
      let none_held : (s.memory.ref == 0) ≡ true = ground arith in
      let t : Slice = record s { memory = ptr 0 s.memory.ref; len = 0; cap = 0 } in
      let run : dealloc_slice s m ≡ done t m = rw none_held refl in
      let (u, a, b, c, d) = rest m m t (ap (λ r. assign (ptr 0 r) new.memory m) z) one in
      (u, rw (assign_slice_other t m run) a, b, (λ k ne. ap (λ f. f k) c), λ k _ ne. d k ne)
  replace_lem (counted n xs nz pos bound count some_block held) = elim (ℕ_discrete n 1) [
    | yes last ↦
        let c = s.memory.ref in
        let m1 : Memory (List A) = record m { counts = put m.counts c none } in
        let m2 : Memory (List A) = record m1 { blocks = put m.blocks s.memory.alloc none } in
        let t : Slice = record { memory = nil; items = null_place; len = 0; cap = 0 } in
        let gone = delete_block-some m1 s.memory.alloc xs some_block held in
        let run = free_last m s m2 nz (rw last at count) gone in
        let (u, a, b, e, d) =
          rest m2 m2 t refl (put_other m.counts c new.memory.ref none apart ∙ one) in
        (
          u,
          rw (assign_slice_other t m2 run) a,
          b,
          (λ k ne. ap (λ f. f k) e ∙ put_other m.blocks s.memory.alloc k none ne),
          λ k ne ne'. d k ne' ∙ put_other m.counts c k none ne,
        )
    | no many ↦
        let c = s.memory.ref in
        let t : Slice = record s { memory = ptr 0 c; len = 0; cap = 0 } in
        let run = dealloc_shared m s n nz count many in
        let m2 = counting m c ((n + (2 ^ 64 - 1)) % 2 ^ 64) in
        let (u, a, b, e, d) =
          rest m m2 t (assign_dropped c n nz count many) (
            put_other m.counts c new.memory.ref (some ((n + (2 ^ 64 - 1)) % 2 ^ 64)) apart ∙ one) in
        (
          u,
          rw (assign_slice_other t m run) a,
          b,
          (λ k ne. ap (λ f. f k) e),
          λ k ne ne'. d k ne' ∙ put_other m.counts c k (some ((n + (2 ^ 64 - 1)) % 2 ^ 64)) ne,
        )
  ]

module _ {A : Type 0} (m : Memory (List A)) (s : Slice) (named : s.items.block ≢ 0) where
  copy_uncounted :
      s.memory.ref ≡ 0 → (copy_slice s >>= λ r. destroy_slice {A = A} s >> done r) m ≡ done s m
  unfolding copy_slice get_copy_slice is_nil destroy_slice dealloc_slice assign dealloc get_copy
  copy_uncounted z =
      let there : (s.items.block == 0) ≡ false = ground arith in
      let no_counter : (s.memory.ref == 0) ≡ true = ground arith in
      rw there (rw no_counter (rw no_counter refl))

  copy_counted :
      (n : ℕ)
      → s.memory.ref ≢ 0
      → m.counts s.memory.ref ≡ some n
      → n ≢ 0
      → n + 1 < 2 ^ 64
      → (copy_slice s >>= λ r. destroy_slice {A = A} s >> done r) m
        ≡ done s (
            counting
              (counting m s.memory.ref (n + 1))
              s.memory.ref
              ((n + 1 + (2 ^ 64 - 1)) % 2 ^ 64))
  unfolding copy_slice get_copy_slice is_nil
  copy_counted n nz count some_refs bound =
      let there : (s.items.block == 0) ≡ false = ground arith in
      let raised : (n + 1) % 2 ^ 64 ≡ n + 1 = omega arith in
      let m1 = counting m s.memory.ref (n + 1) in
      rw there (
        rw (assign_nil_lem m s.memory n nz count, raised)
          (rw
            (destroy_shared m1 s (n + 1) nz (put_same m.counts s.memory.ref (some (n + 1)))
              (omega arith))
            refl))

  -- A copy of a slice outlives the slice, and no array changes.
  pub copy_then_destroy :
      Held m s
      → (m' : Memory (List A)) × ((copy_slice s >>= λ r. destroy_slice {A = A} s >> done r) m
          ≡ done s m')
        × (m'.blocks ≡ m.blocks)
  copy_then_destroy (uncounted z null) = (m, copy_uncounted z, refl)
  copy_then_destroy (counted n xs nz some_refs bound count block held) =
      (_, copy_counted n nz count some_refs bound, refl)
