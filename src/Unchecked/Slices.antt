-- ===== src/Unchecked/Slices.antt =====
-- The items of a slice without the test of the index (api/slice.hpp).
pub mod Indices
use jule.Common.{ℕ, suc, ◌+◌, ◌-◌, Bool, true, List, ltb, if◌then◌else◌, ◌≡◌, arith, ◌||◌}
use jule.Common.Int.{ℤ, pos, negsuc, pos_part}
use jule.Memory.{Cmd, undef, pure, ◌>>=◌, ◌>>◌}
use jule.Panic.{index_out_of_range, invalid_memory}
use jule.Slice
use jule.Slice.{Slice, Place, place, read_item, write_item, bad_index}
use jule.Unchecked.Keeps.{Keeps, Keeps-refl, Keeps-guard, Keeps-stopped, Keeps-test}

-- A negative index fails the test.
negative : (s : Slice) (k : ℕ) → bad_index s (negsuc k) ≡ true
unfolding Slice.empty
negative s k = ground arith

module _ {A : Type 0} where
  -- `_slice[index]`, where a negative index names an item before `_slice`.
  pub read_at : Place → ℤ → Cmd (List A) A
  read_at p (pos k) = read_item p k
  read_at p (negsuc k) =
      if ltb k p.offset then read_item (place p.block (p.offset - suc k)) 0 else undef

  pub write_at : Place → ℤ → A → Cmd (List A) (Unit {0})
  write_at p (pos k) v = write_item p k v
  write_at p (negsuc k) v =
      if ltb k p.offset then write_item (place p.block (p.offset - suc k)) 0 v else undef

  -- A read of `at(index)`, and a write through it.
  pub at : Slice → ℤ → Cmd (List A) A
  unfolding read_at
  at s index = read_at s.items index

  pub at_write : Slice → ℤ → A → Cmd (List A) (Unit {0})
  unfolding write_at
  at_write s index v = write_at s.items index v

  -- `swap(i, j)`
  pub swap : Slice → ℤ → ℤ → Cmd (List A) (Unit {0})
  unfolding read_at write_at
  swap s i j = do
    x ← read_at s.items i
    y ← read_at s.items j
    write_at s.items i y
    write_at s.items j x

  pub at-Keeps : (s : Slice) (index : ℤ) → Keeps (Slice.at {A = A} s index) (at s index)
  unfolding at Slice.at Slice.check read_at
  at-Keeps s (pos k) = Keeps-test (Slice.is_nil s) invalid_memory tt _ (read_item s.items k) (
      Keeps-guard (bad_index s (pos k)) (index_out_of_range (pos k) s.len) _ _
        (Keeps-refl (read_item s.items k)))
  at-Keeps s (negsuc k) =
      Keeps-test (Slice.is_nil s) invalid_memory tt _ (read_at s.items (negsuc k)) (
        Keeps-stopped (bad_index s (negsuc k)) (index_out_of_range (negsuc k) s.len) _ _
          (negative s k))

  pub at_write-Keeps :
      (s : Slice) (index : ℤ) (v : A) → Keeps (Slice.at_write s index v) (at_write s index v)
  unfolding at_write Slice.at_write Slice.check write_at
  at_write-Keeps s (pos k) v =
      Keeps-test (Slice.is_nil s) invalid_memory tt _ (write_item s.items k v) (
        Keeps-guard (bad_index s (pos k)) (index_out_of_range (pos k) s.len) _ _
          (Keeps-refl (write_item s.items k v)))
  at_write-Keeps s (negsuc k) v =
      Keeps-test (Slice.is_nil s) invalid_memory tt _ (write_at s.items (negsuc k) v) (
        Keeps-stopped (bad_index s (negsuc k)) (index_out_of_range (negsuc k) s.len) _ _
          (negative s k))

  pub swap-Keeps : (s : Slice) (i j : ℤ) → Keeps (Slice.swap {A = A} s i j) (swap s i j)
  unfolding swap Slice.swap read_at write_at
  swap-Keeps s (pos i) (pos j) =
      Keeps-guard (bad_index s (pos i)) (index_out_of_range (pos i) s.len) _ _ (
        Keeps-guard (bad_index s (pos j)) (index_out_of_range (pos j) s.len) _ _
          (Keeps-refl (swap s (pos i) (pos j))))
  swap-Keeps s (pos i) (negsuc j) =
      Keeps-guard (bad_index s (pos i)) (index_out_of_range (pos i) s.len) _ _ (
        Keeps-stopped (bad_index s (negsuc j)) (index_out_of_range (negsuc j) s.len) _ _
          (negative s j))
  swap-Keeps s (negsuc i) j =
      Keeps-stopped (bad_index s (negsuc i)) (index_out_of_range (negsuc i) s.len) _ _
        (negative s i)
