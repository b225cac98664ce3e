-- ===== src/Slice/Grow.antt =====
-- `push` (api/slice.hpp), in the array that the slice has and in a new one.
use jule.Common.{
  ℕ, ◌+◌, ◌-◌, ◌*◌, ◌≤◌, ◌<◌, ◌≡◌, ◌≢◌, ◌⊎◌, inl, inr, refl, sym, ap, ◌∙◌, true, false, some, none,
  ltb, ◌==◌, arith, List, if◌then◌else◌, length, length-set, length-replicate, get_or, set,
  replicate,
}
use jule.Common.Int.{pos}
use native.Mathlib.Decide.{ℕ_discrete}
use jule.Memory.{Memory, done, put, put_same, put_other, put-put, put_block}
use jule.Ptr.{ptr}
use jule.Ptr.Fresh.{adopt-nil, allocated, counting}
use jule.Slice.{
  Slice, place, nil_slice, copy_items, write_item, alloc, alloc_new, dealloc_slice, push, at,
}
use jule.Slice.Items.{In, write_item-set, get_or-set, at-inside, written}
use jule.Slice.Push.{push-room}
use jule.Slice.Replace.{Held, uncounted, counted, replace_lem}
use jule.Slice.Copy.{pasted, length-pasted, get_or-pasted, copy_items-pasted}

-- The items of a slice, `xs` from its offset on, if there are any.
abbrev pub Source : {A : Type 0} → Memory (List A) → Slice → List A → Type 0
Source m s xs = ((s.len ≡ 0) × (s.cap ≡ 0)) ⊎ In m s xs

abbrev pub fresh_slice : (fresh fresh_ref len cap : ℕ) → Slice
fresh_slice fresh fresh_ref len cap = record {
  memory = ptr fresh fresh_ref;
  items = place fresh 0;
  len = len;
  cap = cap;
}

-- The items of a slice after `push`: those it had, and the new one behind them.
abbrev pub pushed : {A : Type 0} → A → Slice → List A → A → ℕ → A
pushed blank s xs v i = if i == s.len then v else get_or xs (s.items.offset + i) blank

-- Addresses that are not in use.
pub record Unused {A : Type 0} (m : Memory (List A)) (fresh fresh_ref : ℕ) : Type 0 where
  pub block_ne : fresh ≢ 0
  pub ref_ne : fresh_ref ≢ 0
  pub no_block : m.blocks fresh ≡ none
  pub no_count : m.counts fresh_ref ≡ none

module _ {A : Type 0} (blank : A) {m : Memory (List A)} {fresh fresh_ref : ℕ}
    (u : Unused m fresh fresh_ref) where
  pub alloc_new_lem :
      (len cap : ℕ)
      → alloc_new blank fresh fresh_ref nil_slice len cap m
        ≡ done
            (fresh_slice fresh fresh_ref len cap)
            (allocated m fresh fresh_ref (replicate cap blank))
  unfolding alloc_new dealloc_slice put_block
  alloc_new_lem len cap =
      let there : (fresh == 0) ≡ false = ground (arith, u.block_ne) in
      let m1 : Memory (List A) = record m {
        blocks = put m.blocks fresh (some (replicate cap blank));
      } in
      rw there (rw (adopt-nil m1 fresh_ref fresh u.ref_ne) refl)

  pub alloc_lem :
      (cap : ℕ)
      → alloc blank fresh fresh_ref (pos 0) (pos cap) m
        ≡ done
            (fresh_slice fresh fresh_ref 0 cap)
            (allocated m fresh fresh_ref (replicate cap blank))
  unfolding alloc
  alloc_lem cap =
      let sound : ltb (cap + 0) 0 ≡ false = ground arith in rw sound (alloc_new_lem 0 cap)

  pub Held-allocated :
      {s : Slice} (ys : List A)
      → Held m s
      → Held (allocated m fresh fresh_ref ys) s
        × (fresh_ref ≢ s.memory.ref)
        × (s.memory.alloc ≢ fresh)
  Held-allocated {s} ys (uncounted z null) =
      (uncounted z null, (λ e. u.ref_ne (e ∙ z)), λ e. u.block_ne (sym e ∙ null))
  Held-allocated {s} ys (counted n xs nz some_refs bound count block held) =
      let ref_apart : fresh_ref ≢ s.memory.ref =
        λ e. ground (arith, sym u.no_count ∙ ap m.counts e ∙ count) in
      let apart : s.memory.alloc ≢ fresh =
        λ e. ground (arith, sym u.no_block ∙ sym (ap m.blocks e) ∙ held) in
      (
        counted n xs nz some_refs bound
            (put_other m.counts fresh_ref s.memory.ref (some 1) (λ e. ref_apart (sym e)) ∙ count)
            block (put_other m.blocks fresh s.memory.alloc (some ys) apart ∙ held),
        ref_apart,
        apart,
      )

  -- The items of a slice, moved to the front of the new array.
  pub moved :
      {s : Slice} {xs : List A} (ys : List A)
      → Source m s xs
      → s.len ≤ length ys
      → copy_items s.len 0 s.items (place fresh 0) (allocated m fresh fresh_ref ys)
        ≡ done tt (allocated m fresh fresh_ref (pasted blank s.len xs s.items.offset ys 0))
  unfolding copy_items
  moved ys (inl (z, _)) h = rw z refl
  moved {s} {xs} ys (inr o) h =
      let apart : s.items.block ≢ fresh =
        λ e. ground (arith, sym u.no_block ∙ sym (ap m.blocks e) ∙ o.allocated) in
      let run =
        copy_items-pasted blank (counting m fresh_ref 1) s.items.block fresh xs o.not_nil u.block_ne
          apart o.allocated s.len 0 s.items.offset 0 ys (omega (arith, o.fits, o.within))
          (omega arith) in
      let zero_p : s.items.offset + 0 ≡ s.items.offset = omega arith in rw zero_p at run

  -- `push` in a new array.
  pub push-grow :
      {s : Slice} {xs : List A} (v : A)
      → Source m s xs
      → Held m s
      → s.len ≡ s.cap
      → (m' : Memory (List A)) × (push blank fresh fresh_ref s v m
          ≡ done (fresh_slice fresh fresh_ref (s.len + 1) ((s.len + 1) * 2)) m')
        × (m'.blocks fresh
            ≡ some (
                set
                  (pasted blank s.len xs s.items.offset (replicate ((s.len + 1) * 2) blank) 0)
                  s.len
                  v))
        × (m'.counts fresh_ref ≡ some 1)
        × ((b : ℕ) → b ≢ fresh → b ≢ s.memory.alloc → m'.blocks b ≡ m.blocks b)
        × ((k : ℕ) → k ≢ fresh_ref → k ≢ s.memory.ref → m'.counts k ≡ m.counts k)
  unfolding push
  push-grow {s} {xs} v source held full =
      let cap = (s.len + 1) * 2 in
      let new = fresh_slice fresh fresh_ref (s.len + 1) cap in
      let ys = replicate cap blank in
      let is_full : (s.len == s.cap) ≡ true = ground arith in
      let size : length ys ≡ cap = length-replicate cap blank in
      let zs = pasted blank s.len xs s.items.offset ys 0 in
      let size_z : length zs ≡ cap = length-pasted blank s.len xs s.items.offset ys 0 ∙ size in
      let target : In (allocated m fresh fresh_ref zs) new zs = record {
        allocated = put_same m.blocks fresh (some zs);
        not_nil = u.block_ne;
        fits = omega (arith, size_z);
        within = omega arith;
      } in
      let ws = set zs s.len v in
      let front : 0 + s.len ≡ s.len = omega arith in
      let wrote : write_item (place fresh 0) s.len v (allocated m fresh fresh_ref zs)
          ≡ done tt (allocated m fresh fresh_ref ws) =
        rw (front, put-put m.blocks fresh (some zs) (some ws)) at
          (write_item-set target s.len v (omega (arith, size_z))) in
      let (held', ref_apart, apart) = Held-allocated ws held in
      let (m', run, one, kept, kept_counts) =
        replace_lem (allocated m fresh fresh_ref ws) s new u.ref_ne u.block_ne u.block_ne ref_apart
          (put_same m.counts fresh_ref (some 1)) apart held' in
      (
        m',
        rw is_full (
            rw (alloc_new_lem (s.len + 1) cap)
              (rw (moved ys source (omega (arith, size))) (rw wrote run))),
        kept fresh (λ e. apart (sym e)) ∙ put_same m.blocks fresh (some ws),
        one,
        (λ b ne ne'. kept b ne' ∙ put_other m.blocks fresh b (some ws) ne),
        λ k ne ne'. kept_counts k ne' ne ∙ put_other m.counts fresh_ref k (some 1) ne,
      )

  pub grown-items :
      (s : Slice) (xs : List A) (v : A) (cap i : ℕ)
      → s.len < cap
      → i ≤ s.len
      → get_or (set (pasted blank s.len xs s.items.offset (replicate cap blank) 0) s.len v) i blank
        ≡ pushed blank s xs v i
  grown-items s xs v cap i room h =
      let ys = replicate cap blank in
      let size = length-replicate cap blank in
      let zs = pasted blank s.len xs s.items.offset ys 0 in
      let size_z = length-pasted blank s.len xs s.items.offset ys 0 in
      let start : i - 0 ≡ i = omega arith in
      ground (
        arith,
        get_or-set zs s.len i v blank (omega (arith, size, size_z)),
        rw start at (get_or-pasted blank s.len xs s.items.offset ys 0 i (omega (arith, size))),
      )

  -- `push` to a slice that is empty without capacity or lies in an allocated array, and that has
  -- no counter and no block or a counter in use, where the allocations return unused addresses: it
  -- ends, in the same array or in a new one, with a slice that is one longer and whose items are
  -- those of the slice before and the pushed one behind them.
  push_refines :
      (s : Slice) (xs : List A) (v : A)
      → Source m s xs
      → Held m s
      → (t : Slice) × (m' : Memory (List A)) × (push blank fresh fresh_ref s v m ≡ done t m')
        × (t.len ≡ s.len + 1)
        × ((i : ℕ) → i ≤ s.len → at t (pos i) m' ≡ done (pushed blank s xs v i) m')
  push_refines s xs v source held = elim (ℕ_discrete s.len s.cap) [
    | yes full ↦
        let (m', run, block, one, _, _) = push-grow v source held full in
        let cap = (s.len + 1) * 2 in
        let t = fresh_slice fresh fresh_ref (s.len + 1) cap in
        let ws = set (pasted blank s.len xs s.items.offset (replicate cap blank) 0) s.len v in
        let size : length ws ≡ cap =
          length-set (pasted blank s.len xs s.items.offset (replicate cap blank) 0) s.len v
          ∙ length-pasted blank s.len xs s.items.offset (replicate cap blank) 0
          ∙ length-replicate cap blank in
        let o : In m' t ws = record {
          allocated = block;
          not_nil = u.block_ne;
          fits = omega (arith, size);
          within = omega arith;
        } in
        (
          t,
          m',
          run,
          refl,
          λ i h.
              let start : 0 + i ≡ i = omega arith in
              at-inside o i blank (omega arith)
              ∙ rw start (ap (λ x. done x m') (grown-items s xs v cap i (omega arith) h)),
        )
    | no room ↦ elim source [
      | inl (z, y) ↦ absurd (room (z ∙ sym y))
      | inr o ↦
          let k = s.items.offset + s.len in
          let less : s.len < s.cap = omega (arith, o.within) in
          let (run, after) = push-room o blank fresh fresh_ref v less in
          let bound : k < length xs = omega (arith, o.fits) in
          (
            _,
            _,
            run,
            refl,
            λ i h.
                at-inside after i blank (omega arith)
                ∙ ap (λ x. done x (written o o k v))
                    (ground (arith, get_or-set xs k (s.items.offset + i) v blank bound)),
          )
    ]
  ]
