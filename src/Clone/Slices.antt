-- ===== src/Clone/Slices.antt =====
-- The clone of a slice.
use jule.Common.{
  Bool-cases, ◌==◌, ℕ, zero, suc, ◌+◌, ◌-◌, ◌≤◌, ◌<◌, ◌≡◌, ◌≢◌, inl, inr, refl, sym, ap, ◌∙◌, false,
  List, [], ◌∷◌, map, some, arith, length, length-set, length-replicate, get_or, set, replicate,
}
use jule.Common.Int.{pos}
use jule.Memory.{Memory, ◌>>=◌, done, undefined, put_same, put_other, put-put}
use jule.Ptr.Fresh.{allocated}
use jule.Slice.{Slice, place, is_nil, write_item, at}
use jule.Slice.Items.{In, read_item-get_or, write_item-set, at-inside}
use jule.Slice.Copy.{pasted, length-pasted, get_or-pasted, at_place}
use jule.Slice.Grow.{Unused, Source, fresh_slice, alloc_lem}
use jule.Clone.{int_max, next_int, clone_slice, clone_items}

get_or-map :
    {A : Type 0} (f : A → A) (xs : List A) (k : ℕ) (d : A)
    → get_or (map f xs) k (f d) ≡ f (get_or xs k d)
get_or-map f [] k d = refl
get_or-map f (x ∷ xs) zero d = refl
get_or-map f (x ∷ xs) (suc k) d = get_or-map f xs k d

module _ {A : Type 0} (clone : A → A) (blank : A) {m : Memory (List A)} {fresh fresh_ref : ℕ}
    (u : Unused m fresh fresh_ref) where
  -- One round of the loop, up to `++i`.
  clone_items-round :
      {s : Slice} {xs : List A}
      → In m s xs
      → (n i : ℕ) (ys : List A) → i < s.len
      → i < length ys
      → clone_items clone (suc n) i s.items (place fresh 0) (allocated m fresh fresh_ref ys)
        ≡ (next_int i >>= λ j. clone_items clone n j s.items (place fresh 0))
            (allocated m fresh fresh_ref (set ys i (clone (get_or xs (s.items.offset + i) blank))))
  unfolding clone_items
  clone_items-round {s} {xs} o n i ys h k =
      let v = clone (get_or xs (s.items.offset + i) blank) in
      let apart : s.items.block ≢ fresh =
        λ e. ground (arith, sym u.no_block ∙ sym (ap m.blocks e) ∙ o.allocated) in
      let source : In (allocated m fresh fresh_ref ys) s xs = record {
        allocated = put_other m.blocks fresh s.items.block (some ys) apart ∙ o.allocated;
        not_nil = o.not_nil;
        fits = o.fits;
        within = o.within;
      } in
      let target : In (allocated m fresh fresh_ref ys) (at_place fresh 0) ys = record {
        allocated = put_same m.blocks fresh (some ys);
        not_nil = u.block_ne;
        fits = omega arith;
        within = omega arith;
      } in
      let front : 0 + i ≡ i = omega arith in
      let wrote : write_item (place fresh 0) i v (allocated m fresh fresh_ref ys)
          ≡ done tt (allocated m fresh fresh_ref (set ys i v)) =
        rw (front, put-put m.blocks fresh (some ys) (some (set ys i v))) at
          (write_item-set target i v (omega arith)) in
      rw (read_item-get_or source i blank (omega (arith, o.fits, o.within))) (rw wrote refl)

  clone_items-pasted :
      {s : Slice} {xs : List A}
      → In m s xs
      → (n i : ℕ) (ys : List A) → i + n ≤ s.len
      → i + n ≤ length ys
      → i + n ≤ int_max
      → clone_items clone n i s.items (place fresh 0) (allocated m fresh fresh_ref ys)
        ≡ done tt (
            allocated m fresh fresh_ref
              (pasted (clone blank) n (map clone xs) (s.items.offset + i) ys i))
  unfolding clone_items next_int
  clone_items-pasted o zero i ys h k small = refl
  clone_items-pasted {s} {xs} o (suc n) i ys h k small =
      let v = clone (get_or xs (s.items.offset + i) blank) in
      let below : (i == int_max) ≡ false = ground arith in
      let next : s.items.offset + (i + 1) ≡ s.items.offset + i + 1 = omega arith in
      clone_items-round o n i ys (omega arith) (omega arith)
      ∙ rw below (
          rw (get_or-map clone xs (s.items.offset + i) blank) (
            rw next at (
              clone_items-pasted o n (i + 1) (set ys i v) (omega arith)
                (omega (arith, length-set ys i v)) (omega arith))))

  -- With more items than an `int` counts, `++i` overflows.
  clone_items-overflow :
      {s : Slice} {xs : List A}
      → In m s xs
      → (n i : ℕ) (ys : List A) → i + n ≤ s.len
      → i + n ≤ length ys
      → i ≤ int_max
      → int_max < i + n
      → clone_items clone n i s.items (place fresh 0) (allocated m fresh fresh_ref ys) ≡ undefined
  unfolding clone_items next_int
  clone_items-overflow o zero i ys h k small large = absurd (omega arith)
  clone_items-overflow {s} {xs} o (suc n) i ys h k small large =
      let v = clone (get_or xs (s.items.offset + i) blank) in
      clone_items-round o n i ys (omega arith) (omega arith) ∙ elim (Bool-cases (i == int_max)) [
        | inl last ↦ rw last refl
        | inr more ↦ rw more (
            clone_items-overflow o n (i + 1) (set ys i v) (omega arith)
              (omega (arith, length-set ys i v)) (ground arith) (omega arith))
      ]

  cloned :
      (s : Slice) (xs : List A)
      → Source m s xs
      → s.len ≤ int_max
      → (ys : List A) → length ys ≡ s.len
      → clone_items clone s.len 0 s.items (place fresh 0) (allocated m fresh fresh_ref ys)
        ≡ done tt (
            allocated m fresh fresh_ref
              (pasted (clone blank) s.len (map clone xs) s.items.offset ys 0))
  unfolding clone_items
  cloned s xs (inl (z, _)) small ys size = rw z refl
  cloned s xs (inr o) small ys size =
      let start : s.items.offset + 0 ≡ s.items.offset = omega arith in
      rw start at
        (clone_items-pasted o s.len 0 ys (omega arith) (omega (arith, size)) (omega arith))

  -- The clone of a slice that is empty without capacity or lies in an allocated array, and has at
  -- most 2147483647 items, where the allocations return unused addresses: it ends, with a slice as long in an array of its own,
  -- which is not nil and whose items are the clones of the slice's; the other arrays stay as they
  -- were.
  pub clone_slice-items :
      (s : Slice) (xs : List A)
      → Source m s xs
      → s.len ≤ int_max
      → (t : Slice) × (m' : Memory (List A)) × (clone_slice clone blank fresh fresh_ref s m
          ≡ done t m')
        × (t.len ≡ s.len)
        × (is_nil t ≡ false)
        × ((i : ℕ)
            → i < s.len
            → at t (pos i) m' ≡ done (clone (get_or xs (s.items.offset + i) blank)) m')
        × ((b : ℕ) → b ≢ fresh → m'.blocks b ≡ m.blocks b)
  unfolding clone_slice is_nil
  clone_slice-items s xs source small =
      let ys = replicate s.len blank in
      let size : length ys ≡ s.len = length-replicate s.len blank in
      let zs = pasted (clone blank) s.len (map clone xs) s.items.offset ys 0 in
      let size_z : length zs ≡ s.len =
        length-pasted (clone blank) s.len (map clone xs) s.items.offset ys 0 ∙ size in
      let t = fresh_slice fresh fresh_ref s.len s.len in
      let m' = allocated m fresh fresh_ref zs in
      let o : In m' t zs = record {
        allocated = put_same m.blocks fresh (some zs);
        not_nil = u.block_ne;
        fits = omega (arith, size_z);
        within = omega arith;
      } in
      (
        t,
        m',
        rw (alloc_lem blank u s.len) (rw (cloned s xs source small ys size) refl),
        refl,
        ground (arith, u.block_ne),
        (λ i l.
            let front : 0 + i ≡ i = omega arith in
            let first : i - 0 ≡ i = omega arith in
            let item =
              get_or-pasted (clone blank) s.len (map clone xs) s.items.offset ys 0 i
                (omega (arith, size)) in
            at-inside o i (clone blank) l
            ∙ rw front (
                ap (λ x. done x m')
                  (ground
                    (arith, rw first at item, get_or-map clone xs (s.items.offset + i) blank)))),
        λ b ne. put_other m.blocks fresh b (some zs) ne,
      )

  -- The clone of a slice of more items that lies in an allocated array is undefined.
  clone_slice-overflow :
      (s : Slice) (xs : List A)
      → In m s xs
      → int_max < s.len
      → clone_slice clone blank fresh fresh_ref s m ≡ undefined
  unfolding clone_slice
  clone_slice-overflow s xs o large =
      let ys = replicate s.len blank in
      let size : length ys ≡ s.len = length-replicate s.len blank in
      rw (alloc_lem blank u s.len) (
        rw
          (clone_items-overflow o s.len 0 ys (omega arith) (omega (arith, size)) (omega arith)
            (omega arith))
          refl)
