-- ===== src/Array.antt =====
-- api/array.hpp: the built-in array. `Array<Item, N>` is the list of its `N` items; its slices are
-- new slices with copies of the items.
pub mod Items
use jule.Common.{
  ℕ, zero, suc, Option, none, some, ◌+◌, ◌-◌, Bool, true, false, not, ◌&&◌, ◌||◌, List, [], ◌∷◌,
  ◌==◌, if◌then◌else◌, length, get_or, set, take, replicate,
}
use jule.Common.Int.{ℤ, pos, pos_part, lt_int, le_int}
use jule.Panic.{Outcome, ok, panic, index_out_of_range, slicing_out_of_range}
use jule.Memory.{Cmd, pure, stop, ◌>>=◌, ◌>>◌}
use jule.Slice.{Slice, Place, nil_slice, alloc_new, write_item}

-- `slice`, `at` and `swap` test their arguments so.
abbrev pub out_of_range : ℤ → ℤ → ℕ → Bool
out_of_range start end n =
    lt_int start (pos 0) || (lt_int end (pos 0) || (lt_int end start || lt_int (pos n) end))

abbrev pub bad_index : ℕ → ℤ → Bool
bad_index n index = n == 0 || (lt_int index (pos 0) || le_int (pos n) index)

module _ {A : Type 0} where
  -- `Array(src)`: `std::copy` over the items that `buffer` has at first; `none` is a write past its
  -- end.
  pub from_list : List A → List A → Option (List A)
  from_list [] buffer = some buffer
  from_list (v ∷ src) [] = none
  from_list (v ∷ src) (w ∷ buffer) = elim (from_list src buffer) [
    | none ↦ none
    | some rest ↦ some (v ∷ rest)
  ]

  -- `Array(def)`
  pub filled : ℕ → A → List A
  filled n def = replicate n def

  -- The loop of `slice`: `n` items of `a`, from item `start` on, to the front of a slice, from item
  -- `i` on. `blank` stands for what is never read.
  pub copy_out : A → ℕ → ℕ → List A → ℕ → Place → Cmd (List A) (Unit {0})
  copy_out blank zero i a start s_it = pure tt
  copy_out blank (suc n) i a start s_it = do
    write_item s_it i (get_or a (start + i) blank)
    copy_out blank n (i + 1) a start s_it

  -- `slice(start, end)`
  pub slice : A → (fresh fresh_ref : ℕ) → List A → ℤ → ℤ → Cmd (List A) Slice
  unfolding copy_out
  slice blank fresh fresh_ref a start end =
      let n = pos_part end - pos_part start in
      if out_of_range start end (length a)
      then stop (slicing_out_of_range start end (length a))
      else if pos_part start == pos_part end
      then pure nil_slice
      else do
        s ← alloc_new blank fresh fresh_ref nil_slice 0 n
        copy_out blank n 0 a (pos_part start) s.items
        pure (record s { len = s.cap })

  -- `slice(start)` and `slice()`
  pub slice_from : A → (fresh fresh_ref : ℕ) → List A → ℤ → Cmd (List A) Slice
  unfolding slice
  slice_from blank fresh fresh_ref a start = slice blank fresh fresh_ref a start (pos (length a))

  pub slice_all : A → (fresh fresh_ref : ℕ) → List A → Cmd (List A) Slice
  unfolding slice
  slice_all blank fresh fresh_ref a = slice blank fresh fresh_ref a (pos 0) (pos (length a))

  -- `empty`
  pub empty : List A → Bool
  empty a = length a == 0

  -- A read of `at(index)`, which is `operator[]`, with `d` for what is never read.
  unfoldable pub at : A → List A → ℤ → Outcome A
  at d a index =
      if bad_index (length a) index
      then panic (index_out_of_range index (length a))
      else ok (get_or a (pos_part index) d)

  -- A write through `at(index)`.
  unfoldable pub at_write : List A → ℤ → A → Outcome (List A)
  at_write a index v =
      if bad_index (length a) index
      then panic (index_out_of_range index (length a))
      else ok (set a (pos_part index) v)

  -- `swap(i, j)`
  unfoldable pub swap : A → List A → ℤ → ℤ → Outcome (List A)
  swap d a i j =
      if bad_index (length a) i
      then panic (index_out_of_range i (length a))
      else if bad_index (length a) j
      then panic (index_out_of_range j (length a))
      else (let x = get_or a (pos_part i) d in
          let y = get_or a (pos_part j) d in ok (set (set a (pos_part i) y) (pos_part j) x))

  -- The loop of `operator==` for two arrays that are not one object, with `!=` of items.
  pub equal : (A → A → Bool) → List A → List A → Bool
  equal differ [] it = true
  equal differ (a ∷ rest) [] = true
  equal differ (a ∷ rest) (b ∷ it) = if differ a b then false else equal differ rest it

  -- `operator!=`
  pub not_equal : (A → A → Bool) → List A → List A → Bool
  unfolding equal
  not_equal differ a src = not (equal differ a src)
