-- ===== src/Slice/Make/Items.antt =====
-- The slice that `make` gives.
use jule.Common.{
  ℕ, ◌+◌, ◌≡◌, refl, ap, some, List, [], ◌∷◌, ◌++◌, append_assoc, length, length-append,
  length-replicate, set, replicate, arith,
}
use jule.Memory.{Memory, done, put_same, put-put}
use jule.Ptr.Fresh.{allocated}
use jule.Slice.{place, write_item}
use jule.Slice.Items.{In, write_item-set}
use jule.Slice.Grow.{Unused, fresh_slice, alloc_new_lem}
use jule.Slice.Make.{make, store_items}

set-append :
    {A : Type 0} (pre post : List A) (w v : A)
    → set (pre ++ (w ∷ post)) (length pre) v ≡ pre ++ (v ∷ post)
set-append [] post w v = refl
set-append (x ∷ pre) post w v = ap (λ t. x ∷ t) (set-append pre post w v)

module _ {A : Type 0} {m : Memory (List A)} {fresh fresh_ref : ℕ}
    (u : Unused m fresh fresh_ref) where
  -- What is stored replaces what stands behind the items stored before.
  store_items-append :
      (src pre post : List A)
      → length post ≡ length src
      → store_items src (length pre) (place fresh 0) (allocated m fresh fresh_ref (pre ++ post))
        ≡ done tt (allocated m fresh fresh_ref (pre ++ src))
  unfolding store_items
  store_items-append [] pre [] h = refl
  store_items-append [] pre (w ∷ post) h = absurd (omega arith)
  store_items-append (v ∷ src) pre [] h = absurd (omega arith)
  store_items-append (v ∷ src) pre (w ∷ post) h =
      let ys = pre ++ (w ∷ post) in
      let o : In (allocated m fresh fresh_ref ys) (fresh_slice fresh fresh_ref 0 0) ys = record {
        allocated = put_same m.blocks fresh (some ys);
        not_nil = u.block_ne;
        fits = omega arith;
        within = omega arith;
      } in
      let front : 0 + length pre ≡ length pre = omega arith in
      let wrote : write_item (place fresh 0) (length pre) v (allocated m fresh fresh_ref ys)
          ≡ done tt (allocated m fresh fresh_ref (pre ++ (v ∷ post))) =
        rw
          (
            front,
            put-put m.blocks fresh (some ys) (some (set ys (length pre) v)),
            set-append pre post w v,
          )
          at (write_item-set o (length pre) v (omega (arith, length-append pre (w ∷ post)))) in
      let longer : length (pre ++ (v ∷ [])) ≡ length pre + 1 = length-append pre (v ∷ []) in
      let rest = store_items-append src (pre ++ (v ∷ [])) post (omega arith) in
      rw wrote (rw (longer, append_assoc pre (v ∷ []) post, append_assoc pre (v ∷ []) src) at rest)

  -- Where the allocations return unused addresses: the slice of the items of a list that is not
  -- empty, over a new array of just these items.
  make-items :
      (blank v : A) (src : List A)
      → make blank fresh fresh_ref (v ∷ src) m
        ≡ done
            (fresh_slice fresh fresh_ref (length (v ∷ src)) (length (v ∷ src)))
            (allocated m fresh fresh_ref (v ∷ src))
  unfolding make
  make-items blank v src =
      let n = length (v ∷ src) in
      rw (alloc_new_lem blank u n n)
        (rw (store_items-append (v ∷ src) [] (replicate n blank) (length-replicate n blank)) refl)
