-- ===== src/Slice.antt =====
-- api/slice.hpp: the built-in slice over the heap, a block being an array of items. `blank` is what
-- `new Item[n]` leaves in an item. A method that changes the slice returns it. `std::move` of items
-- is a copy, as for every item type of api/ whose assignment from an rvalue copies (all but `Map`).
pub mod Items
pub mod Nil
pub mod Push
pub mod Replace
pub mod Grow
pub mod Threads
pub mod Make
pub mod Sequence
pub mod Copy
pub mod Subslice
use jule.Common.{
  ℕ, zero, suc, ◌+◌, ◌-◌, ◌*◌, Bool, true, false, not, ◌&&◌, ◌||◌, Option, none, some, List, [],
  ◌∷◌, ltb, ◌==◌, if◌then◌else◌, length, get_elem?, set, replicate,
}
use jule.Common.Int.{ℤ, pos, pos_part, lt_int, le_int}
use jule.Memory.{
  Memory, Cmd, pure, stop, undef, ◌>>=◌, ◌>>◌, put_block, load_block, delete_block, delete_count,
}
use jule.Panic.{
  Panic, memory_allocation_failed, invalid_memory, negative_length, negative_capacity,
  length_over_capacity, index_out_of_range, slicing_out_of_range,
}
use jule.Ptr.{Ptr, ptr, nil, get_ref_n, adopt, get_copy, assign, dealloc}

-- A raw `Item *`: a block and an offset into it. Block 0 is the null pointer.
pub record Place : Type 0 where
  pub block : ℕ
  pub offset : ℕ

abbrev pub place : ℕ → ℕ → Place
place b i = record { block = b; offset = i }

abbrev pub null_place : Place
null_place = place 0 0

-- `data`, `_slice`, `_len` and `_cap`. The two sizes are never negative.
pub record Slice : Type 0 where
  pub memory : Ptr
  pub items : Place
  pub len : ℕ
  pub cap : ℕ

-- `Slice()` and `Slice(nullptr)`
abbrev pub nil_slice : Slice
nil_slice = record { memory = nil; items = null_place; len = 0; cap = 0 }

-- `operator==(nullptr)`
unfoldable pub is_nil : Slice → Bool
is_nil s = s.items.block == 0

-- `empty`
unfoldable pub empty : Slice → Bool
empty s = s.items.block == 0 || (s.len == 0 || s.cap == 0)

module _ {A : Type 0} where
  -- `p[i]`, read and written.
  pub read_item : Place → ℕ → Cmd (List A) A
  read_item p i = do
    xs ← load_block p.block
    elim (get_elem? xs (p.offset + i)) [ none ↦ undef | some v ↦ pure v ]

  pub write_item : Place → ℕ → A → Cmd (List A) (Unit {0})
  write_item p i v = do
    xs ← load_block p.block
    if ltb (p.offset + i) (length xs) then put_block p.block (set xs (p.offset + i) v) else undef

  -- `std::copy` and `std::move` of `n` items from `src` to `dst`, first to last, from item `i` on.
  pub copy_items : ℕ → ℕ → Place → Place → Cmd (List A) (Unit {0})
  copy_items zero i src dst = pure tt
  copy_items (suc n) i src dst = do
    v ← read_item src i
    write_item dst i v
    copy_items n (i + 1) src dst

  -- The loop that stores `v` in `n` items from item `i` on.
  fill_items : ℕ → ℕ → Place → A → Cmd (List A) (Unit {0})
  fill_items zero i p v = pure tt
  fill_items (suc n) i p v = do write_item p i v; fill_items n (i + 1) p v

  -- `__free`
  pub free_slice : Slice → Cmd (List A) Slice
  free_slice s = do
    delete_count s.memory.ref
    delete_block s.memory.alloc
    pure (record s { memory = nil; items = null_place })

  -- `dealloc`: the sizes are cleared first. Unless this is the last reference only the address in
  -- `data` is cleared with them.
  pub dealloc_slice : Slice → Cmd (List A) Slice
  unfolding free_slice get_ref_n
  dealloc_slice s =
      let cleared : Slice = record s { len = 0; cap = 0 } in
      let dropped : Slice = record s { memory = ptr 0 s.memory.ref; len = 0; cap = 0 } in
      if s.memory.ref == 0
      then pure dropped
      else do n ← get_ref_n s.memory; if not (n == 1) then pure dropped else free_slice cleared

  -- `~Slice`: `dealloc`, and then the destructor of `data`.
  pub destroy_slice : Slice → Cmd (List A) (Unit {0})
  unfolding dealloc_slice
  destroy_slice s = do t ← dealloc_slice s; dealloc t.memory; pure tt

  -- `__get_copy(src)` into the slice `s`.
  pub get_copy_slice : Slice → Slice → Cmd (List A) Slice
  unfolding is_nil
  get_copy_slice s src = if is_nil src then pure s else do
    d ← assign s.memory src.memory
    pure (record { memory = d; items = src.items; len = src.len; cap = src.cap })

  -- `Slice(src)`
  pub copy_slice : Slice → Cmd (List A) Slice
  unfolding get_copy_slice
  copy_slice src = get_copy_slice nil_slice src

  -- `operator=(src)`: the slice after it.
  pub assign_slice : Slice → Slice → Cmd (List A) Slice
  unfolding dealloc_slice get_copy_slice
  assign_slice s src =
      if not (s.memory.alloc == 0) && s.memory.alloc == src.memory.alloc
      then pure (record s { len = src.len; cap = src.cap; items = src.items })
      else do t ← dealloc_slice s; get_copy_slice t src

  -- `operator=(nullptr)`
  pub assign_nil : Slice → Cmd (List A) Slice
  unfolding dealloc_slice
  assign_nil s = dealloc_slice s

module _ {A : Type 0} (blank : A) where
  -- `alloc_new(len, cap)`. `fresh` and `fresh_ref` are what `new Item[cap]` and `new Uint` return.
  -- The temporary pointer of `this->data = Ptr::make(alloc)` is destroyed behind the assignment.
  pub alloc_new : (fresh fresh_ref : ℕ) → Slice → ℕ → ℕ → Cmd (List A) Slice
  unfolding dealloc_slice
  alloc_new fresh fresh_ref s len cap = do
    t ← dealloc_slice s
    if fresh == 0 then stop memory_allocation_failed else do
      put_block fresh (replicate cap blank)
      d ← adopt fresh_ref t.memory fresh
      pure (record { memory = d; items = place fresh 0; len = len; cap = cap })

  -- `alloc_new(len, cap, def)`
  pub alloc_new_filled : (fresh fresh_ref : ℕ) → Slice → ℕ → ℕ → A → Cmd (List A) Slice
  unfolding alloc_new fill_items
  alloc_new_filled fresh fresh_ref s len cap def = do
    t ← alloc_new fresh fresh_ref s len cap
    fill_items len 0 t.items def
    pure t

  -- The guards of `alloc(len, cap)` and `alloc(len, cap, def)`.
  abbrev alloc_guard : ℤ → ℤ → Cmd (List A) Slice → Cmd (List A) Slice
  alloc_guard len cap k =
      if lt_int len (pos 0)
      then stop negative_length
      else if lt_int cap (pos 0)
      then stop negative_capacity
      else if lt_int cap len
      then stop length_over_capacity
      else k

  pub alloc : (fresh fresh_ref : ℕ) → ℤ → ℤ → Cmd (List A) Slice
  unfolding alloc_new
  alloc fresh fresh_ref len cap =
      alloc_guard len cap (alloc_new fresh fresh_ref nil_slice (pos_part len) (pos_part cap))

  pub alloc_filled : (fresh fresh_ref : ℕ) → ℤ → ℤ → A → Cmd (List A) Slice
  unfolding alloc_new_filled
  alloc_filled fresh fresh_ref len cap def =
      alloc_guard len cap
        (alloc_new_filled fresh fresh_ref nil_slice (pos_part len) (pos_part cap) def)

  -- `push(item)`. The new slice of the growing branch is destroyed behind the assignment.
  pub push : (fresh fresh_ref : ℕ) → Slice → A → Cmd (List A) Slice
  unfolding alloc_new assign_slice destroy_slice
  push fresh fresh_ref s item =
      if s.len == s.cap
      then (do
        new ← alloc_new fresh fresh_ref nil_slice (s.len + 1) ((s.len + 1) * 2)
        copy_items s.len 0 s.items new.items
        write_item new.items s.len item
        t ← assign_slice s new
        destroy_slice {A = A} new
        pure t)
      else do write_item s.items s.len item; pure (record s { len = s.len + 1 })

abbrev pub bad_index : Slice → ℤ → Bool
bad_index s i = empty s || (lt_int i (pos 0) || le_int (pos s.len) i)

module _ {A : Type 0} where
  -- `check`
  unfoldable pub check : Slice → Cmd (List A) (Unit {0})
  unfolding is_nil
  check s = if is_nil s then stop invalid_memory else pure tt

  -- `slice(start, end)`. The nil check is made only if neither bound is zero.
  pub slice : Slice → ℤ → ℤ → Cmd (List A) Slice
  unfolding check
  slice s start end = do
    if not (pos_part start == 0 && not (lt_int start (pos 0)))
          && not (pos_part end == 0 && not (lt_int end (pos 0)))
        then check s
        else pure tt
    if lt_int start (pos 0) || (lt_int end (pos 0) || (lt_int end start || lt_int (pos s.len) end))
        then stop (slicing_out_of_range start end s.len)
        else do
          d ← assign nil s.memory
          pure (record {
            memory = d;
            items = place s.items.block (s.items.offset + pos_part start);
            len = pos_part end - pos_part start;
            cap = s.cap - pos_part start;
          })

  -- `slice(start)` and `slice()`
  pub slice_from : Slice → ℤ → Cmd (List A) Slice
  slice_from s start = slice s start (pos s.len)

  pub slice_all : Slice → Cmd (List A) Slice
  slice_all s = slice s (pos 0) (pos s.len)

  -- A read of `at(index)`, which is `operator[]`, and a write through it.
  unfoldable pub at : Slice → ℤ → Cmd (List A) A
  unfolding check empty
  at s index = do
    check s
    if bad_index s index
        then stop (index_out_of_range index s.len)
        else read_item s.items (pos_part index)

  unfoldable pub at_write : Slice → ℤ → A → Cmd (List A) (Unit {0})
  unfolding check empty
  at_write s index v = do
    check s
    if bad_index s index
        then stop (index_out_of_range index s.len)
        else write_item s.items (pos_part index) v

  -- `swap(i, j)`
  unfoldable pub swap : Slice → ℤ → ℤ → Cmd (List A) (Unit {0})
  unfolding empty
  swap s i j =
      if bad_index s i
      then stop (index_out_of_range i s.len)
      else if bad_index s j
      then stop (index_out_of_range j s.len)
      else do
        x ← read_item s.items (pos_part i)
        y ← read_item s.items (pos_part j)
        write_item s.items (pos_part i) y
        write_item s.items (pos_part j) x
