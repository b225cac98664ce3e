-- ===== src/Str/Bytes/Trip.antt =====
-- A string made into a slice of bytes, and back.
use jule.Common.{
  ℕ, suc, ◌+◌, ◌-◌, ◌≤◌, ◌<◌, ◌≡◌, ◌≢◌, refl, sym, ap, ◌∙◌, some, List, [], ◌∷◌, arith, length,
  length-replicate, get_or, replicate,
}
use jule.Memory.{Memory, done, put_same, put_other}
use jule.Ptr.Fresh.{allocated}
use jule.Slice.{Slice}
use jule.Slice.Items.{In, read_item-get_or}
use jule.Slice.Copy.{pasted, length-pasted, get_or-pasted}
use jule.Slice.Grow.{Unused, fresh_slice, alloc_new_lem}
use jule.Array.Items.{copy_out-pasted}
use jule.Str.{Str}
use jule.Str.Bytes.{read_items, from_slice, to_slice}

-- Reading the items that stand in an array.
read_items-there :
    {m : Memory (List ℕ)} {s : Slice} {xs : List ℕ}
    → In m s xs
    → (i : ℕ) (bytes : List ℕ) → s.items.offset + i + length bytes ≤ length xs
    → ((k : ℕ) → k < length bytes → get_or xs (s.items.offset + i + k) 0 ≡ get_or bytes k 0)
    → read_items (length bytes) i s.items m ≡ done bytes m
unfolding read_items
read_items-there o i [] h same = refl
read_items-there {m} {s} {xs} o i (b ∷ bytes) h same =
    let at_i : s.items.offset + i + 0 ≡ s.items.offset + i = omega arith in
    let first : get_or xs (s.items.offset + i) 0 ≡ b =
      sym (ap (λ k. get_or xs k 0) at_i) ∙ same 0 (omega arith) in
    let rest = read_items-there o (i + 1) bytes (omega (arith, h)) (λ k l.
      let e : s.items.offset + (i + 1) + k ≡ s.items.offset + i + suc k = omega arith in
      ap (λ j. get_or xs j 0) e ∙ same (suc k) (omega (arith, l))) in
    rw (read_item-get_or o i 0 (omega (arith, h))) (rw rest (rw first refl))

module _ {m : Memory (List ℕ)} {fresh fresh_ref : ℕ} (u : Unused m fresh fresh_ref) where
  -- Where the allocations return unused addresses: a string that is made into a slice of bytes has
  -- a slice of its length over a new array, the other arrays stay as they were, and the string
  -- made from that slice is the string.
  from_slice-to_slice :
      (s : Str)
      → (m' : Memory (List ℕ)) × (to_slice fresh fresh_ref s m
          ≡ done (fresh_slice fresh fresh_ref (length s) (length s)) m')
        × (from_slice (fresh_slice fresh fresh_ref (length s) (length s)) m' ≡ done s m')
        × ((b : ℕ) → b ≢ fresh → m'.blocks b ≡ m.blocks b)
  unfolding to_slice from_slice
  from_slice-to_slice s =
      let n = length s in
      let ys : List ℕ = replicate n 0 in
      let size : length ys ≡ n = length-replicate n 0 in
      let zs : List ℕ = pasted 0 n s 0 ys 0 in
      let size_z : length zs ≡ n = length-pasted 0 n s 0 ys 0 ∙ size in
      let t = fresh_slice fresh fresh_ref n n in
      let m' = allocated m fresh fresh_ref zs in
      let o : In m' t zs = record {
        allocated = put_same m.blocks fresh (some zs);
        not_nil = u.block_ne;
        fits = omega (arith, size_z);
        within = omega arith;
      } in
      (
        m',
        rw (alloc_new_lem 0 u n n) (rw (copy_out-pasted 0 u n 0 s 0 ys (omega (arith, size))) refl),
        read_items-there o 0 s (omega (arith, size_z)) (λ k l.
            let pasted_at = get_or-pasted 0 n s 0 ys 0 k (omega (arith, size)) in
            let front : 0 + 0 + k ≡ k = omega arith in
            let first : 0 + (k - 0) ≡ k = omega arith in
            rw front (ground (arith, rw first at pasted_at))),
        λ b ne. put_other m.blocks fresh b (some zs) ne,
      )
