-- ===== src/Map.antt =====
-- api/map.hpp: the built-in map and the hash of its keys. The `std::unordered_map` is the list of
-- its pairs, with one pair for each key, in the order of its iteration, which only the output of a
-- map shows; where a new pair is put is not specified, and here it is in front. `blank` is `Value()`.
pub mod Hash
pub mod Keys
pub mod Changes
pub mod Refine
pub mod Initial
use jule.Common.{
  ℕ, ◌≡◌, ◌↔◌, Bool, true, false, not, Option, none, some, List, [], ◌∷◌, length, if◌then◌else◌,
}

-- `==` of keys, which `std::unordered_map` uses.
pub record KeyEqual {ℓ} (K : Type ℓ) : Type ℓ where
  pub same : K → K → Bool
  pub same_iff : (a b : K) → (same a b ≡ true) ↔ (a ≡ b)

pub record Map {ℓ κ} (K : Type ℓ) (V : Type κ) : Type (ℓ ⊔ κ) where
  pub buffer : List (K × V)

abbrev pub map_of {ℓ κ} : {K : Type ℓ} {V : Type κ} → List (K × V) → Map K V
map_of b = record { buffer = b }

-- `Map()` and `Map(nullptr)`
abbrev pub nil {ℓ κ} : {K : Type ℓ} {V : Type κ} → Map K V
nil = map_of []

module _ {ℓ κ} {K : Type ℓ} {V : Type κ} where
  -- `len`
  unfoldable pub len : Map K V → ℕ
  len m = length m.buffer

  -- `operator==(nullptr)`
  pub is_nil : Map K V → Bool
  is_nil m = elim m.buffer [ [] ↦ true | p ∷ ps ↦ false ]

  -- `operator!=(nullptr)`
  pub not_nil : Map K V → Bool
  unfolding is_nil
  not_nil m = not (is_nil m)

  -- `clear`
  pub clear : Map K V → Map K V
  clear m = nil

module _ {ℓ κ} {K : Type ℓ} {V : Type κ} ⦃e : KeyEqual K⦄ where
  -- `find` of the library.
  unfoldable pub find : List (K × V) → K → Option V
  find [] key = none
  find ((k, v) ∷ b) key = if e.same k key then some v else find b key

  -- `it->second = v` at the pair of a key.
  pub put : List (K × V) → K → V → List (K × V)
  put [] key v = []
  put ((k, w) ∷ b) key v =
      let rest = put b key v in if e.same k key then (k, v) ∷ b else (k, w) ∷ rest

  -- `erase` of the library.
  pub erase : List (K × V) → K → List (K × V)
  erase [] key = []
  erase ((k, v) ∷ b) key = let rest = erase b key in if e.same k key then rest else (k, v) ∷ rest

  -- `insert` of the library, which keeps the pair of a key that is there.
  insert : List (K × V) → K → V → List (K × V)
  unfolding find
  insert b key v = elim (find b key) [ none ↦ (key, v) ∷ b | some w ↦ b ]

  -- `Map(src)`: the loop over the initializer list.
  from_pairs_loop : List (K × V) → List (K × V) → List (K × V)
  unfolding insert
  from_pairs_loop [] b = b
  from_pairs_loop ((k, v) ∷ src) b = from_pairs_loop src (insert b k v)

  pub from_pairs : List (K × V) → Map K V
  unfolding from_pairs_loop
  from_pairs src = map_of (from_pairs_loop src [])

  -- `lookup(key, value, ok)`: what `*value` and `*ok` hold afterwards; `none` is a null pointer.
  pub lookup : Map K V → K → Option V → Option Bool → Option V × Option Bool
  unfolding find
  lookup m key value ok = elim (find m.buffer key) [
    | none ↦ (value, elim ok [ none ↦ none | some _ ↦ some false ])
    | some v ↦
        (elim value [ none ↦ none | some _ ↦ some v ], elim ok [ none ↦ none | some _ ↦ some true ])
  ]

  -- `del`
  pub del : Map K V → K → Map K V
  unfolding erase
  del m key = map_of (erase m.buffer key)

  -- A read of `operator[]`: the map after it, and the value. A key that is not there is added.
  pub at : V → Map K V → K → Map K V × V
  unfolding find
  at blank m key = elim (find m.buffer key) [
    | none ↦ (map_of ((key, blank) ∷ m.buffer), blank)
    | some v ↦ (m, v)
  ]

  -- A write through `operator[]`.
  pub at_write : Map K V → K → V → Map K V
  unfolding find put
  at_write m key v = elim (find m.buffer key) [
    | none ↦ map_of ((key, v) ∷ m.buffer)
    | some w ↦ map_of (put m.buffer key v)
  ]
