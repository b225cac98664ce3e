-- ===== src/Slice/Make.antt =====
-- `Slice::make`, `__push` and the accessors of a slice (api/slice.hpp).
pub mod Items
use jule.Common.{ℕ, ◌+◌, Bool, not, List, [], ◌∷◌, length}
use jule.Memory.{Cmd, pure, ◌>>=◌, ◌>>◌}
use jule.Slice.{Slice, Place, place, nil_slice, is_nil, alloc_new, write_item}

-- The loop that stores the items of `src`, from item `i` on.
pub store_items : {A : Type 0} → List A → ℕ → Place → Cmd (List A) (Unit {0})
store_items [] i p = pure tt
store_items (v ∷ src) i p = do write_item p i v; store_items src (i + 1) p

-- `make(src)`; `fresh` and `fresh_ref` are what the allocations return.
pub make : {A : Type 0} → A → (fresh fresh_ref : ℕ) → List A → Cmd (List A) Slice
unfolding store_items
make blank fresh fresh_ref [] = pure nil_slice
make blank fresh fresh_ref (v ∷ src) = do
  let n = length (v ∷ src)
  slice ← alloc_new blank fresh fresh_ref nil_slice n n
  store_items (v ∷ src) 0 (place slice.memory.alloc 0)
  pure slice

-- `__push(item)`, without a test of the capacity.
pub push_unchecked : {A : Type 0} → Slice → A → Cmd (List A) Slice
push_unchecked s item = do write_item s.items s.len item; pure (record s { len = s.len + 1 })

-- `begin`, `end`, `len` and `cap`, and `operator!=(nullptr)`.
pub begin : Slice → Place
begin s = s.items

pub end : Slice → Place
end s = place s.items.block (s.items.offset + s.len)

pub len : Slice → ℕ
len s = s.len

pub cap : Slice → ℕ
cap s = s.cap

pub not_nil : Slice → Bool
not_nil s = not (is_nil s)
