-- ===== src/Str/Bytes.antt =====
-- Strings and slices of bytes, and strings from C (api/str.hpp).
pub mod Trip
pub mod Views
use jule.Common.{
  ℕ, zero, suc, ◌+◌, Option, none, some, List, [], ◌∷◌, ◌++◌, ◌==◌, if◌then◌else◌, length,
}
use jule.Common.Int.{pos}
use jule.Memory.{Cmd, pure, ◌>>=◌, ◌>>◌}
use jule.Ptr.{ptr}
use jule.Slice.{Slice, Place, place, nil_slice, alloc_new, read_item}
use jule.Array.{copy_out}
use jule.Str.{Str}

-- `n` items from item `i` on, for a loop from `begin()` to `end()`.
pub read_items : {A : Type 0} → ℕ → ℕ → Place → Cmd (List A) (List A)
read_items zero i p = pure []
read_items (suc n) i p = do v ← read_item p i; rest ← read_items n (i + 1) p; pure (v ∷ rest)

-- `Str(src)` of a slice of bytes.
pub from_slice : Slice → Cmd (List ℕ) Str
unfolding read_items
from_slice src = read_items src.len 0 src.items

-- `append(s)` of a slice of bytes.
pub append_slice : Str → Slice → Cmd (List ℕ) Str
unfolding read_items
append_slice buffer s = do bytes ← read_items s.len 0 s.items; pure (buffer ++ bytes)

-- `operator Slice<U8>`; `memcpy` copies the bytes in some order. `fresh` and `fresh_ref` are what
-- the allocations return.
pub to_slice : (fresh fresh_ref : ℕ) → Str → Cmd (List ℕ) Slice
to_slice fresh fresh_ref s = do
  slice ← alloc_new 0 fresh fresh_ref nil_slice (length s) (length s)
  copy_out 0 (length s) 0 s 0 slice.items
  pure slice

-- `Str(src)` of a C string: the bytes before the first zero, which `strlen` counts. `none` is a text
-- without one.
unfoldable pub from_c_string : List ℕ → Option Str
from_c_string [] = none
from_c_string (b ∷ src) =
    let rest = from_c_string src in
    if b == 0 then some [] else elim rest [ none ↦ none | some s ↦ some (b ∷ s) ]

-- `Str(src, len)` of a pointer to bytes, which has `len` bytes at least unless it is `none`.
pub from_chars : List ℕ → ℕ → Option Str
from_chars src zero = some []
from_chars [] (suc len) = none
from_chars (b ∷ src) (suc len) = elim (from_chars src len) [ none ↦ none | some s ↦ some (b ∷ s) ]

-- `fake_slice`: a slice over the string's own buffer, which stands at an address that the library
-- chose, with the capacity that it chose; without a counter.
pub fake_slice : (address capacity : ℕ) → Str → Slice
fake_slice address capacity s = record {
  memory = ptr address 0;
  items = place address 0;
  len = length s;
  cap = capacity;
}

-- `operator const char *`: the bytes behind the address, up to the zero that ends them.
pub c_string : Str → List ℕ
c_string s = s ++ (0 ∷ [])

-- `to_str` of a string, and of a C string.
pub to_str : Str → Str
to_str s = s

pub to_str_c : List ℕ → Option Str
unfolding from_c_string
to_str_c s = from_c_string s
