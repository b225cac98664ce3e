-- ===== src/Builtin.antt =====
-- api/builtin.hpp: `append` and `copy` of slices. `std::copy` and `std::move` go from first to last,
-- which is defined only where the target does not begin inside the source.
pub mod Copying
pub mod Room
pub mod Append
use jule.Common.{ℕ, zero, ◌+◌, ◌*◌, Bool, true, false, ◌&&◌, ◌||◌, List, ltb, ◌==◌, if◌then◌else◌}
use jule.Common.Int.{pos}
use jule.Memory.{Cmd, pure, ◌>>=◌, ◌>>◌}
use jule.Slice.{
  Slice, place, nil_slice, is_nil, empty, alloc, copy_items, copy_slice, assign_slice,
  destroy_slice,
}

-- `return src` of a parameter: the result is constructed from it, and then it is destroyed.
pub give_back : {A : Type 0} → Slice → Cmd (List A) Slice
give_back {A} src = do result ← copy_slice src; destroy_slice {A = A} src; pure result

module _ {A : Type 0} (blank : A) where
  -- `alloc_for_append(dest, n)`; `fresh` and `fresh_ref` are what the allocations return.
  pub alloc_for_append : (fresh fresh_ref : ℕ) → Slice → ℕ → Cmd (List A) Slice
  alloc_for_append fresh fresh_ref dest n =
      if ltb dest.cap (dest.len + n)
      then (do
        buffer ← alloc blank fresh fresh_ref (pos 0) (pos ((dest.len + n) * 2))
        copy_items dest.len 0 dest.items buffer.items
        pure (record buffer { len = dest.len }))
      else copy_slice dest

  -- What `append` does before it copies the components.
  pub make_room : (fresh fresh_ref : ℕ) → Slice → ℕ → Cmd (List A) Slice
  unfolding alloc_for_append
  make_room fresh fresh_ref src n =
      if ltb src.cap (src.len + n)
      then (do
        temporary ← alloc_for_append fresh fresh_ref src n
        s ← assign_slice src temporary
        destroy_slice {A = A} temporary
        pure s)
      else pure src

  -- `append(src, components)`, where `src` is the function's own copy.
  pub append : (fresh fresh_ref : ℕ) → Slice → Slice → Cmd (List A) Slice
  unfolding make_room give_back
  append fresh fresh_ref src components =
      if is_nil src && is_nil components
      then (do destroy_slice {A = A} src; pure nil_slice)
      else if components.len == 0
      then give_back src
      else do
        s ← make_room fresh fresh_ref src components.len
        copy_items components.len 0 components.items (place s.items.block (s.items.offset + s.len))
        give_back (record s { len = s.len + components.len })

-- `copy(dest, src)`
pub copy : {A : Type 0} → Slice → Slice → Cmd (List A) ℕ
copy dest src =
    if empty dest || empty src
    then pure 0
    else (let len =
          if ltb src.len dest.len
          then src.len
          else if ltb dest.len src.len
          then dest.len
          else src.len in
        do copy_items len 0 src.items dest.items; pure len)
