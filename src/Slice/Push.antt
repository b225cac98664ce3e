-- ===== src/Slice/Push.antt =====
-- `push` and `swap` of slices (api/slice.hpp) inside the array that they have.
use jule.Common.{
  ℕ, ◌+◌, ◌<◌, ◌≡◌, refl, ap, false, ◌==◌, if◌then◌else◌, arith, Bool-cases, inl, inr, List, ltb,
  length, length-set, get_or, set,
}
use jule.Common.Int.{pos}
use jule.Memory.{Memory, done, stopped, ◌>>=◌}
use jule.Panic.{index_out_of_range}
use jule.Slice.{Slice, push, swap, at, bad_index}
use jule.Slice.Items.{
  In, In-written, written, at-items, bad_index-pos, write_item-set, read_item-get_or, get_or-set,
}

module _ {A : Type 0} {m : Memory (List A)} {s : Slice} {xs : List A} (o : In m s xs) where
  -- With room in the capacity only the item behind the items of the slice changes.
  pub push-room :
      (blank : A) (fresh fresh_ref : ℕ) (v : A)
      → s.len < s.cap
      → (push blank fresh fresh_ref s v m
          ≡ done (record s { len = s.len + 1 }) (written o o (s.items.offset + s.len) v))
        × In
            (written o o (s.items.offset + s.len) v)
            (record s { len = s.len + 1 })
            (set xs (s.items.offset + s.len) v)
  unfolding push
  push-room blank fresh fresh_ref v room =
      let full : (s.len == s.cap) ≡ false = ground arith in
      let longer : In m (record s { len = s.len + 1 }) xs = record {
        allocated = o.allocated;
        not_nil = o.not_nil;
        fits = o.fits;
        within = omega arith;
      } in
      (
        rw (full, write_item-set o s.len v (omega (arith, o.fits))) refl,
        In-written o longer refl (s.items.offset + s.len) v,
      )

  -- Pushing to a slice in an allocated array, with room in the capacity, and then reading index
  -- `i`: the pushed item just behind the items of the slice, the item that was there before that,
  -- and from there on a panic with a length that is one more; the array is changed in that one
  -- item.
  at-push_room :
      (blank : A) (fresh fresh_ref i : ℕ) (v : A)
      → s.len < s.cap
      → (push blank fresh fresh_ref s v >>= λ t. at t (pos i)) m ≡ (
          if ltb i (s.len + 1)
          then done
              (if i == s.len then v else get_or xs (s.items.offset + i) v)
              (written o o (s.items.offset + s.len) v)
          else stopped (index_out_of_range (pos i) (s.len + 1)))
  at-push_room blank fresh fresh_ref i v room =
      let k = s.items.offset + s.len in
      let (run, after) = push-room blank fresh fresh_ref v room in
      let bound : k < length xs = omega (arith, o.fits) in
      rw run (
        rw (at-items after (pos i) v, bad_index-pos after i)
          (elim (Bool-cases (ltb i (s.len + 1))) [
            | inl inside ↦ rw inside (
                ap (λ x. done x (written o o k v))
                  (ground (arith, get_or-set xs k (s.items.offset + i) v v bound)))
            | inr outside ↦ rw outside refl
          ]))

  -- Swapping the items at two indices within a slice in an allocated array ends, and afterwards
  -- each of the two reads as the other was, and every other item of the slice as before.
  at-swap :
      (i j : ℕ) (v : A)
      → i < s.len
      → j < s.len
      → (m' : Memory (List A)) × (swap s (pos i) (pos j) m ≡ done tt m')
        × ((k : ℕ)
            → k < s.len
            → at s (pos k) m'
              ≡ done
                  (if k == j
                    then get_or xs (s.items.offset + i) v
                    else if k == i
                    then get_or xs (s.items.offset + j) v
                    else get_or xs (s.items.offset + k) v)
                  m')
  unfolding swap
  at-swap i j v hi hj =
      let good_i : bad_index s (pos i) ≡ false = rw (bad_index-pos o i) (ground arith) in
      let good_j : bad_index s (pos j) ≡ false = rw (bad_index-pos o j) (ground arith) in
      let bound : (k : ℕ) → k < s.len → s.items.offset + k < length xs =
        λ k h. omega (arith, o.fits, o.within) in
      let a = s.items.offset + i in
      let b = s.items.offset + j in
      let x = get_or xs a v in
      let y = get_or xs b v in
      let first = In-written o o refl a y in
      let wide : b < length (set xs a y) = omega (arith, bound j hj, length-set xs a y) in
      let second = In-written first first refl b x in
      (
        written first first b x,
        rw (good_i, good_j)
            (rw (read_item-get_or o i v (bound i hi)) (
              rw (read_item-get_or o j v (bound j hj))
                (rw (write_item-set o i y (bound i hi)) (write_item-set first j x wide)))),
        λ k h.
            let good_k : bad_index s (pos k) ≡ false = rw (bad_index-pos o k) (ground arith) in
            rw (at-items second (pos k) v, good_k)
              (ap (λ w. done w (written first first b x))
                (ground (
                  arith,
                  get_or-set (set xs a y) b (s.items.offset + k) x v wide,
                  get_or-set xs a (s.items.offset + k) y v (bound i hi),
                ))),
      )
