-- ===== src/Map/Changes.antt =====
-- Each change of a map as a change of the function from keys to values that it stands for.
use jule.Common.{
  ℕ, ◌+◌, ◌≡◌, refl, Option, none, some, ◌∷◌, if◌then◌else◌, Bool-cases, Option-cases, inl, inr,
  arith,
}
use jule.Map.{KeyEqual, Map, map_of, len, find, put, del, at, at_write}
use jule.Map.Keys.{
  Distinct, find-put_self, find-put_ne, find-erase_self, find-erase_ne, put-Distinct, erase-none,
  length-erase,
}

-- What a key reads as where a read adds it.
abbrev pub or_blank {κ} : {V : Type κ} → V → Option V → V
or_blank blank none = blank
or_blank blank (some v) = v

-- 1 for a key that is there.
abbrev pub count {κ} : {V : Type κ} → Option V → ℕ
count none = 0
count (some v) = 1

module _ {ℓ κ} {K : Type ℓ} {V : Type κ} ⦃e : KeyEqual K⦄ where
  -- A function changed at one key.
  abbrev pub update : (K → Option V) → K → Option V → K → Option V
  update f k v j = if e.same k j then v else f j

  pub at_write-none :
      (m : Map K V) (k : K) (v : V)
      → find m.buffer k ≡ none
      → at_write m k v ≡ map_of ((k, v) ∷ m.buffer)
  unfolding at_write
  at_write-none m k v h = rw (h, at_write) refl

  pub at_write-some :
      (m : Map K V) (k : K) (v : V) {w : V}
      → find m.buffer k ≡ some w
      → at_write m k v ≡ map_of (put m.buffer k v)
  unfolding at_write
  at_write-some m k v h = rw (h, at_write) refl

  pub find-write :
      (m : Map K V) (k j : K) (v : V)
      → find (at_write m k v).buffer j ≡ update (find m.buffer) k (some v) j
  unfolding find
  find-write m k j v = elim (Option-cases (find m.buffer k)) [
    | inl gone ↦ rw (at_write-none m k v gone) refl
    | inr (w, there) ↦ rw (at_write-some m k v there) (elim (Bool-cases (e.same k j)) [
      | inl s ↦ rw (s, ← (e.same_iff k j).0 s) (find-put_self m.buffer k v there)
      | inr s ↦ rw s (find-put_ne m.buffer k j v s)
    ])
  ]

  pub find-del : (m : Map K V) (k j : K) → find (del m k).buffer j ≡ update (find m.buffer) k none j
  unfolding del
  find-del m k j = elim (Bool-cases (e.same k j)) [
    | inl s ↦ rw (s, ← (e.same_iff k j).0 s) (find-erase_self m.buffer k)
    | inr s ↦ rw s (find-erase_ne m.buffer k j s)
  ]

  pub at-none :
      (blank : V) (m : Map K V) (k : K)
      → find m.buffer k ≡ none
      → at blank m k ≡ (map_of ((k, blank) ∷ m.buffer), blank)
  unfolding at
  at-none blank m k h = rw (h, at) refl

  pub at-some :
      (blank : V) (m : Map K V) (k : K) {v : V} → find m.buffer k ≡ some v → at blank m k ≡ (m, v)
  unfolding at
  at-some blank m k h = rw (h, at) refl

  pub find-at :
      (blank : V) (m : Map K V) (k j : K)
      → find (at blank m k).0.buffer j
        ≡ update (find m.buffer) k (some (or_blank blank (find m.buffer k))) j
  unfolding find
  find-at blank m k j = elim (Option-cases (find m.buffer k)) [
    | inl gone ↦ rw (at-none blank m k gone, gone) refl
    | inr (w, there) ↦
        rw (at-some blank m k there, there)
          (elim (Bool-cases (e.same k j)) [
            | inl s ↦ rw (s, ← (e.same_iff k j).0 s) there
            | inr s ↦ rw s refl
          ])
  ]

  -- In a map with different keys, writing or reading a key through `operator[]` adds one to the
  -- length if the key is missing and nothing else, and deleting a key takes one off if it is there.
  len-changes :
      (blank : V) (m : Map K V) (k : K) (v : V)
      → Distinct m.buffer
      → (len (at_write m k v) + count (find m.buffer k) ≡ len m + 1)
        × (len (at blank m k).0 + count (find m.buffer k) ≡ len m + 1)
        × (len (del m k) + count (find m.buffer k) ≡ len m)
  unfolding len del
  len-changes blank m k v d = elim (Option-cases (find m.buffer k)) [
    | inl gone ↦
        rw (at_write-none m k v gone, at-none blank m k gone, erase-none m.buffer k gone, gone)
          (omega arith, omega arith, omega arith)
    | inr (w, there) ↦
        let size = length-erase m.buffer k there d in
        let same_size = (put-Distinct m.buffer k v there d).1 in
        rw (at_write-some m k v there, at-some blank m k there, there)
          (omega (arith, same_size), omega arith, omega (arith, size))
  ]
