-- ===== src/Output/Sequences.antt =====
-- What `operator<<` writes for slices, arrays and maps, `show` being what it writes for an item.
pub mod Joined
use jule.Common.{
  ℕ, zero, suc, ◌+◌, ◌-◌, Bool, true, false, List, [], ◌∷◌, ◌++◌, ltb, if◌then◌else◌, length,
}
use jule.Memory.{Cmd, pure, ◌>>=◌}
use jule.Slice
use jule.Slice.{Slice, read_item}
use jule.Map.{Map, len}
use jule.Error.{text}

-- The body of the loop over `n` items: the item at `index`, and a blank unless it is the last.
abbrev pub spaced : ℕ → ℕ → List ℕ → List ℕ → List ℕ
spaced index n stream item =
    if ltb (index + 1) n then (stream ++ item) ++ text " " else stream ++ item

module _ {A : Type 0} (show : A → List ℕ) where
  -- The loop over a slice (api/slice.hpp), `n` rounds from `index` on.
  pub slice_items : ℕ → ℕ → Slice → List ℕ → Cmd (List A) (List ℕ)
  slice_items zero index src stream = pure stream
  slice_items (suc n) index src stream = do
    v ← read_item src.items index
    slice_items n (index + 1) src (spaced index src.len stream (show v))

  pub slice_output : List ℕ → Slice → Cmd (List A) (List ℕ)
  unfolding slice_items
  slice_output stream src =
      if Slice.empty src
      then pure (stream ++ text "[]")
      else do written ← slice_items src.len 0 src (stream ++ text "["); pure (written ++ text "]")

  -- The loop over an array of `n` items (api/array.hpp), from `index` on.
  unfoldable pub array_items : List A → ℕ → ℕ → List ℕ → List ℕ
  array_items [] index n stream = stream
  array_items (a ∷ src) index n stream =
      array_items src (index + 1) n (spaced index n stream (show a))

  unfoldable pub array_output : List ℕ → List A → List ℕ
  unfolding array_items
  array_output stream src = array_items src 0 (length src) (stream ++ text "[") ++ text "]"

module _ {ℓ κ} {K : Type ℓ} {V : Type κ} (show_key : K → List ℕ) (show_value : V → List ℕ) where
  -- The loop over the pairs of a map (api/map.hpp), in the order in which the table has them;
  -- `length` counts down.
  pub map_pairs : List (K × V) → ℕ → List ℕ → List ℕ
  map_pairs [] length stream = stream
  map_pairs ((k, v) ∷ pairs) length stream =
      let written = ((stream ++ show_key k) ++ text ":") ++ show_value v in
      map_pairs pairs (length - 1) (if ltb 0 (length - 1) then written ++ text ", " else written)

  pub map_output : List ℕ → Map K V → List ℕ
  unfolding map_pairs
  map_output stream src = map_pairs src.buffer (len src) (stream ++ text "{") ++ text "}"
