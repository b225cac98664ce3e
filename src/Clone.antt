-- ===== src/Clone.antt =====
-- api/derive/clone.hpp: clones of slices, arrays, maps and pointers. `clone` of an item is a function
-- of it, as it is for numbers, strings and structs of these. The loops count with an `int` of 32 bits,
-- which must not overflow.
pub mod Slices
pub mod Maps
pub mod Pointers
use jule.Common.{
  Option, none, some, ℕ, zero, suc, ◌+◌, Bool, List, [], ◌∷◌, get_or, set, ◌==◌, if◌then◌else◌,
}
use jule.Common.Int.{pos}
use jule.Memory.{Cmd, pure, undef, ◌>>=◌, ◌>>◌, load_block}
use jule.Ptr
use jule.Ptr.{Ptr}
use jule.Slice.{Slice, Place, alloc, read_item, write_item}
use jule.Map.{KeyEqual, Map, nil, at_write}

-- The greatest `int`.
abbrev pub int_max : ℕ
int_max = 2147483647

-- `++i`
unfoldable pub next_int : {A : Type 0} → ℕ → Cmd (List A) ℕ
next_int i = if i == int_max then undef else pure (i + 1)

module _ {A : Type 0} (clone : A → A) where
  -- The loop of the clone of a slice, over `n` items from item `i` on.
  pub clone_items : ℕ → ℕ → Place → Place → Cmd (List A) (Unit {0})
  unfolding next_int
  clone_items zero i src dst = pure tt
  clone_items (suc n) i src dst = do
    v ← read_item src i
    write_item dst i (clone v)
    j ← next_int i
    clone_items n j src dst

  -- `clone(s)` for a slice.
  pub clone_slice : A → (fresh fresh_ref : ℕ) → Slice → Cmd (List A) Slice
  unfolding clone_items
  clone_slice blank fresh fresh_ref s = do
    s_clone ← alloc blank fresh fresh_ref (pos 0) (pos s.len)
    clone_items s.len 0 s.items s_clone.items
    pure (record s_clone { len = s.len })

  -- `clone(arr)`: the loop from item `i` on over the items of an array, which the new array has at
  -- first as `buffer`. `none` is undefined.
  clone_array_loop : ℕ → List A → List A → Option (List A)
  clone_array_loop i [] buffer = some buffer
  clone_array_loop i (v ∷ arr) [] = none
  clone_array_loop i (v ∷ arr) (w ∷ buffer) =
      let rest = clone_array_loop (i + 1) arr buffer in
      if i == int_max then none else elim rest [ none ↦ none | some vs ↦ some (clone v ∷ vs) ]

  pub clone_array : List A → List A → Option (List A)
  unfolding clone_array_loop
  clone_array arr buffer = clone_array_loop 0 arr buffer

  -- `clone(r)` for a pointer.
  pub clone_ptr : (fresh_ref fresh : ℕ) → Ptr → Cmd A Ptr
  unfolding Ptr.is_nil Ptr.copy Ptr.get Ptr.make_instance
  clone_ptr fresh_ref fresh r =
      if Ptr.is_nil r
      then Ptr.copy r
      else do v ← Ptr.get r; Ptr.make_instance fresh_ref fresh (clone v)

-- `clone(m)`: the loop over the pairs of a map.
pub clone_pairs {ℓ κ} :
    {K : Type ℓ} {V : Type κ} ⦃e : KeyEqual K⦄
    → (K → K)
    → (V → V)
    → List (K × V)
    → Map K V
    → Map K V
clone_pairs clone_key clone_value [] m_clone = m_clone
clone_pairs clone_key clone_value ((k, v) ∷ pairs) m_clone =
    clone_pairs clone_key clone_value pairs (at_write m_clone (clone_key k) (clone_value v))

pub clone_map {ℓ κ} :
    {K : Type ℓ} {V : Type κ} ⦃e : KeyEqual K⦄ → (K → K) → (V → V) → Map K V → Map K V
unfolding clone_pairs
clone_map clone_key clone_value m = clone_pairs clone_key clone_value m.buffer nil

-- `clone(x)` of numbers, texts, functions and addresses, which is `x`.
pub clone_plain {ℓ} : {T : Type ℓ} → T → T
clone_plain x = x

pub clone_fn {ℓ} : {T : Type ℓ} → T → T
clone_fn fn = fn

pub clone_address : ℕ → ℕ
clone_address ptr = ptr
