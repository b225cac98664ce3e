-- ===== src/Unchecked/Slices/Indices.antt =====
-- What an index reaches in a slice without the test.
use jule.Common.{
  ℕ, suc, ◌+◌, ◌-◌, ◌≡◌, refl, Bool-cases, inl, inr, Option, none, some, List, length, get_or, set,
  ltb, if◌then◌else◌, arith,
}
use jule.Common.Int.{ℤ, pos, negsuc}
use jule.Memory.{Memory, Run, done, undefined, put}
use jule.Slice.{Slice, place}
use jule.Slice.Items.{In, read_item-place, write_item-place}
use jule.Unchecked.Slices.{at, at_write, read_at, write_at}

-- The item of the array that an index of a slice names.
abbrev pub position : ℕ → ℤ → Option ℕ
position offset (pos k) = some (offset + k)
position offset (negsuc k) = if ltb k offset then some (offset - suc k) else none

module _ {A : Type 0} {m : Memory (List A)} {s : Slice} {xs : List A} (o : In m s xs) where
  -- A read and a write at an item of the array, or outside of it.
  abbrev pub read_result : A → Option ℕ → Run (List A) A
  read_result d none = undefined
  read_result d (some j) = if ltb j (length xs) then done (get_or xs j d) m else undefined

  abbrev pub write_result : A → Option ℕ → Run (List A) (Unit {0})
  write_result v none = undefined
  write_result v (some j) =
      if ltb j (length xs)
      then done tt (record m { blocks = put m.blocks s.items.block (some (set xs j v)) })
      else undefined

  -- A slice of an array, without the tests of indices: an index, negative or past the end of the
  -- slice too, reads and writes the item of the array that it names, counted from the offset of the
  -- slice; where it names none, reads and writes are undefined.
  pub at-at_write_unchecked :
      (index : ℤ) (v d : A)
      → (at s index m ≡ read_result d (position s.items.offset index))
        × (at_write s index v m ≡ write_result v (position s.items.offset index))
  unfolding at at_write read_at write_at
  at-at_write_unchecked (pos k) v d =
      (read_item-place m s.items xs o.allocated k d, write_item-place m s.items xs o.allocated k v)
  at-at_write_unchecked (negsuc k) v d = elim (Bool-cases (ltb k s.items.offset)) [
    | inl before ↦
        let p = place s.items.block (s.items.offset - suc k) in
        let j : s.items.offset - suc k + 0 ≡ s.items.offset - suc k = omega arith in
        rw before (
          rw j at (read_item-place m p xs o.allocated 0 d),
          rw j at (write_item-place m p xs o.allocated 0 v),
        )
    | inr beyond ↦ rw beyond (refl, refl)
  ]
