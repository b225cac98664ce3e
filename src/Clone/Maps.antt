-- ===== src/Clone/Maps.antt =====
-- The clone of a map.
use jule.Common.{
  suc, ◌+◌, subst, ◌≡◌, refl, sym, ap, ◌∙◌, inl, inr, Bool-cases, Option, none, some, List, [], ◌∷◌,
  length, if◌then◌else◌, arith,
}
use jule.Map.{KeyEqual, Map, map_of, nil, len, find, at_write}
use jule.Map.Keys.{Distinct}
use jule.Map.Changes.{find-write, at_write-none}
use jule.Clone.{clone_pairs, clone_map}

-- The clone of a value that was found, and otherwise what is given.
abbrev pub cloned_or {κ} : {V : Type κ} → (V → V) → Option V → Option V → Option V
cloned_or clone_value none r = r
cloned_or clone_value (some v) r = some (clone_value v)

module _ {ℓ κ} {K : Type ℓ} {V : Type κ} ⦃e : KeyEqual K⦄ (clone_key : K → K) (clone_value : V → V)
    (same_key : (k : K) → clone_key k ≡ k) where
  clone_pairs-find :
      (pairs : List (K × V)) (m_clone : Map K V) (j : K)
      → Distinct pairs
      → find (clone_pairs clone_key clone_value pairs m_clone).buffer j
        ≡ cloned_or clone_value (find pairs j) (find m_clone.buffer j)
  unfolding clone_pairs find
  clone_pairs-find [] m_clone j d = refl
  clone_pairs-find ((k, v) ∷ pairs) m_clone j (new, d) =
      let rest =
        clone_pairs-find pairs (at_write m_clone (clone_key k) (clone_value v)) j d
        ∙ ap (cloned_or clone_value (find pairs j))
            (find-write m_clone (clone_key k) j (clone_value v)) in
      let written : Option V → K → Option V = λ f i.
        cloned_or clone_value (find pairs j) (if e.same i j then some (clone_value v) else f) in
      rest ∙ ap (written (find m_clone.buffer j)) (same_key k) ∙ elim (Bool-cases (e.same k j)) [
        | inl s ↦ rw (s, ← (e.same_iff k j).0 s, new) refl
        | inr s ↦ rw s refl
      ]

  -- The keys of the pairs are not yet in the map.
  abbrev New : List (K × V) → Map K V → Type (ℓ ⊔ κ)
  New pairs m = (j : K) (v : V) → find pairs j ≡ some v → find m.buffer j ≡ none

  clone_pairs-len :
      (pairs : List (K × V)) (m_clone : Map K V)
      → Distinct pairs
      → Distinct m_clone.buffer
      → New pairs m_clone
      → (len (clone_pairs clone_key clone_value pairs m_clone) ≡ length pairs + len m_clone)
        × Distinct (clone_pairs clone_key clone_value pairs m_clone).buffer
  unfolding clone_pairs find len
  clone_pairs-len [] m_clone d d' fresh = (omega arith, d')
  clone_pairs-len ((k, v) ∷ pairs) m_clone (new, d) d' fresh =
      let gone : find m_clone.buffer k ≡ none = fresh k v (rw ((e.same_iff k k).1 refl) refl) in
      let next = map_of ((k, clone_value v) ∷ m_clone.buffer) in
      let later : New pairs next = λ j w there. elim (Bool-cases (e.same k j)) [
        | inl s ↦ absurd (ground (arith, ap (find pairs) ((e.same_iff k j).0 s), new, there))
        | inr s ↦ rw s (fresh j w (rw s there))
      ] in
      let (size, distinct) = clone_pairs-len pairs next d (gone, d') later in
      let step : at_write m_clone (clone_key k) (clone_value v) ≡ next =
        ap (λ i. at_write m_clone i (clone_value v)) (same_key k)
        ∙ at_write-none m_clone k (clone_value v) gone in
      subst
        (λ x.
          (len (clone_pairs clone_key clone_value pairs x) ≡ suc (length pairs) + len m_clone)
          × Distinct (clone_pairs clone_key clone_value pairs x).buffer)
        (sym step) (omega (arith, size), distinct)

  -- Where the clone of a key is equal to the key, a map with different keys has a clone of the same
  -- length, with different keys, in which every key is looked up as the clone of its value.
  pub clone_map-find :
      (m : Map K V)
      → Distinct m.buffer
      → ((j : K)
          → find (clone_map clone_key clone_value m).buffer j
            ≡ cloned_or clone_value (find m.buffer j) none)
        × (len (clone_map clone_key clone_value m) ≡ len m)
        × Distinct (clone_map clone_key clone_value m).buffer
  unfolding clone_map len find
  clone_map-find m d =
      let (size, distinct) = clone_pairs-len m.buffer nil d tt (λ j v there. refl) in
      ((λ j. clone_pairs-find m.buffer nil j d), omega (arith, size), distinct)
