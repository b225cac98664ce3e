-- ===== src/Array/Items.antt =====
-- The slices of an array, and equality of arrays.
use jule.Common.{
  ℕ, zero, suc, ◌+◌, ◌-◌, ◌≤◌, ◌<◌, ◌≡◌, ◌≢◌, ◌↔◌, refl, ap, ◌∙◌, Bool, true, false, ◌||◌, List, [],
  ◌∷◌, some, ltb, ◌==◌, arith, length, length-set, length-replicate, get_or, set, replicate,
}
use jule.Common.Int.{pos}
use jule.Memory.{Memory, done, put_same, put_other, put-put}
use jule.Ptr.Fresh.{allocated}
use jule.Slice.{Slice, place, write_item, at as slice_at}
use jule.Slice.Items.{In, write_item-set, at-inside}
use jule.Slice.Copy.{pasted, length-pasted, get_or-pasted}
use jule.Slice.Grow.{Unused, fresh_slice, alloc_new_lem}
use jule.Array.{slice, copy_out, equal}

module _ {A : Type 0} (blank : A) {m : Memory (List A)} {fresh fresh_ref : ℕ}
    (u : Unused m fresh fresh_ref) where
  pub copy_out-pasted :
      (n i : ℕ) (a : List A) (start : ℕ) (ys : List A)
      → i + n ≤ length ys
      → copy_out blank n i a start (place fresh 0) (allocated m fresh fresh_ref ys)
        ≡ done tt (allocated m fresh fresh_ref (pasted blank n a (start + i) ys i))
  unfolding copy_out
  copy_out-pasted zero i a start ys h = refl
  copy_out-pasted (suc n) i a start ys h =
      let v = get_or a (start + i) blank in
      let o : In (allocated m fresh fresh_ref ys) (fresh_slice fresh fresh_ref 0 0) ys = record {
        allocated = put_same m.blocks fresh (some ys);
        not_nil = u.block_ne;
        fits = omega arith;
        within = omega arith;
      } in
      let front : 0 + i ≡ i = omega arith in
      let wrote : write_item (place fresh 0) i v (allocated m fresh fresh_ref ys)
          ≡ done tt (allocated m fresh fresh_ref (set ys i v)) =
        rw (front, put-put m.blocks fresh (some ys) (some (set ys i v))) at
          (write_item-set o i v (omega arith)) in
      let next : start + (i + 1) ≡ start + i + 1 = omega arith in
      rw wrote (
        rw next at
          (copy_out-pasted n (i + 1) a start (set ys i v) (omega (arith, length-set ys i v))))

  -- For bounds in order and within the array, and different, where the allocations return unused
  -- addresses: slicing ends with a slice of the items between the bounds, in an array of its own;
  -- the other arrays stay as they were.
  pub array_slice-items :
      (a : List A) (start end : ℕ)
      → start < end
      → end ≤ length a
      → (t : Slice) × (m' : Memory (List A)) × (slice blank fresh fresh_ref a
            (pos start)
            (pos end)
            m
          ≡ done t m')
        × (t.len ≡ end - start)
        × ((i : ℕ) → i < end - start → slice_at t (pos i) m' ≡ done (get_or a (start + i) blank) m')
        × ((b : ℕ) → b ≢ fresh → m'.blocks b ≡ m.blocks b)
  unfolding slice
  array_slice-items a start end h k =
      let n = end - start in
      let ys = replicate n blank in
      let size : length ys ≡ n = length-replicate n blank in
      let zs = pasted blank n a start ys 0 in
      let size_z : length zs ≡ n = length-pasted blank n a start ys 0 ∙ size in
      let t = fresh_slice fresh fresh_ref n n in
      let m' = allocated m fresh fresh_ref zs in
      let o : In m' t zs = record {
        allocated = put_same m.blocks fresh (some zs);
        not_nil = u.block_ne;
        fits = omega (arith, size_z);
        within = omega arith;
      } in
      let inside : (ltb (start + 0) 0
            || (ltb (end + 0) 0 || (ltb (end + 0) (start + 0) || ltb (length a + 0) (end + 0))))
          ≡ false =
        ground arith in
      let some_items : (start == end) ≡ false = ground arith in
      let zero_start : start + 0 ≡ start = omega arith in
      let run = rw zero_start at (copy_out-pasted n 0 a start ys (omega (arith, size))) in
      (
        t,
        m',
        rw (inside, some_items) (rw (alloc_new_lem blank u 0 n) (rw run refl)),
        refl,
        (λ i l.
            let front : 0 + i ≡ i = omega arith in
            let first : i - 0 ≡ i = omega arith in
            let item = get_or-pasted blank n a start ys 0 i (omega (arith, size)) in
            at-inside o i blank l
            ∙ rw front (ap (λ x. done x m') (ground (arith, rw first at item)))),
        λ b ne. put_other m.blocks fresh b (some zs) ne,
      )

-- Where the test of two items tells whether they differ, two arrays of one length are equal exactly
-- if their items are.
equal_iff :
    {A : Type 0} (differ : A → A → Bool) (a b : List A)
    → ((x y : A) → (differ x y ≡ false) ↔ (x ≡ y))
    → length a ≡ length b
    → (equal differ a b ≡ true) ↔ (a ≡ b)
unfolding equal
equal_iff differ [] [] d e = ((λ _. refl), λ _. refl)
equal_iff differ [] (y ∷ b) d e = absurd (omega arith)
equal_iff differ (x ∷ a) [] d e = absurd (omega arith)
equal_iff differ (x ∷ a) (y ∷ b) d e =
    let rest = equal_iff differ a b d (omega arith) in ground (arith, rest, d x y)
