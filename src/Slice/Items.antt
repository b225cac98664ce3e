-- ===== src/Slice/Items.antt =====
-- Reads and writes of items through slices (api/slice.hpp): `at`, and slices that share an array.
use jule.Common.{
  Bool, ℕ, zero, suc, length-set, [], ◌∷◌, ap, ◌∙◌, ◌+◌, ◌≤◌, ◌<◌, ◌≡◌, ◌≢◌, ◌⊎◌, refl, true, false,
  Option, none, some, ◌==◌, if◌then◌else◌, arith, Bool-cases, inl, inr, List, not, ltb, length, set,
  get_or, get_elem?,
}
use jule.Common.Int.{ℤ, pos, negsuc, pos_part}
use jule.Memory.{
  undefined, Cmd, pure, undef, Memory, done, stopped, ◌>>◌, put, put_same, load_block-some,
  put_block,
}
use jule.Panic.{Panic, index_out_of_range, invalid_memory}
use jule.Slice.{Place, Slice, is_nil, empty, bad_index, check, read_item, write_item, at, at_write}

-- Whether an index names one of `n` items.
abbrev pub in_range : ℤ → ℕ → Bool
in_range (pos k) n = ltb k n
in_range (negsuc k) n = false

-- The items of a slice lie in an allocated array `xs`.
pub record In {A : Type 0} (m : Memory (List A)) (s : Slice) (xs : List A) : Type 0 where
  pub allocated : m.blocks s.items.block ≡ some xs
  pub not_nil : s.items.block ≢ 0
  pub fits : s.items.offset + s.cap ≤ length xs
  pub within : s.len ≤ s.cap

get_elem?-get_or :
    {A : Type 0} (xs : List A) (i : ℕ) (v : A)
    → i < length xs
    → get_elem? xs i ≡ some (get_or xs i v)
get_elem?-get_or [] i v h = absurd (omega arith)
get_elem?-get_or (x ∷ xs) zero v h = refl
get_elem?-get_or (x ∷ xs) (suc i) v h = get_elem?-get_or xs i v (omega arith)

module _ {A : Type 0} {m : Memory (List A)} {s : Slice} {xs : List A} (o : In m s xs) where
  good_index : (i : ℤ) → bad_index s i ≡ false → s.items.offset + pos_part i < length xs
  unfolding empty
  good_index (pos i) h = ground (arith, o.fits, o.within)
  good_index (negsuc i) h = ground (arith, o.fits, o.within)

  bad_index-in_range : (i : ℤ) → bad_index s i ≡ not (in_range i s.len)
  unfolding empty
  bad_index-in_range (pos i) = ground (arith, o.not_nil, o.within)
  bad_index-in_range (negsuc i) = ground (arith, o.not_nil, o.within)

  pub bad_index-pos : (i : ℕ) → bad_index s (pos i) ≡ not (ltb i s.len)
  unfolding empty
  bad_index-pos i = ground (arith, o.not_nil, o.within)

  pub check-pass : check s m ≡ done tt m
  unfolding check is_nil
  check-pass = let there : (s.items.block == 0) ≡ false = ground (arith, o.not_nil) in rw there refl

  pub read_item-get_or :
      (k : ℕ) (v : A)
      → s.items.offset + k < length xs
      → read_item s.items k m ≡ done (get_or xs (s.items.offset + k) v) m
  unfolding read_item
  read_item-get_or k v h =
      let result : Option A → Cmd (List A) A = λ q. elim q [ none ↦ undef | some x ↦ pure x ] in
      rw (load_block-some m s.items.block xs o.allocated)
        (ap (λ q. result q m) (get_elem?-get_or xs (s.items.offset + k) v h))

  pub write_item-set :
      (k : ℕ) (v : A)
      → s.items.offset + k < length xs
      → write_item s.items k v m
        ≡ done tt (record m {
          blocks = put m.blocks s.items.block (some (set xs (s.items.offset + k) v));
        })
  unfolding write_item put_block
  write_item-set k v h =
      let inside : ltb (s.items.offset + k) (length xs) ≡ true = ground arith in
      rw (load_block-some m s.items.block xs o.allocated, inside) refl

  pub at-items :
      (i : ℤ) (v : A)
      → at s i m ≡ (
          if bad_index s i
          then stopped (index_out_of_range i s.len)
          else done (get_or xs (s.items.offset + pos_part i) v) m)
  unfolding at
  at-items i v = rw check-pass (elim (Bool-cases (bad_index s i)) [
    | inl bad ↦ rw bad refl
    | inr good ↦ rw (good, read_item-get_or (pos_part i) v (good_index i good)) refl
  ])

  pub at-inside :
      (i : ℕ) (v : A) → i < s.len → at s (pos i) m ≡ done (get_or xs (s.items.offset + i) v) m
  at-inside i v h =
      let inside : bad_index s (pos i) ≡ false = rw (bad_index-pos i) (ground arith) in
      at-items (pos i) v ∙ rw inside refl

  at_write-items :
      (i : ℤ) (v : A)
      → at_write s i v m ≡ (
          if bad_index s i
          then stopped (index_out_of_range i s.len)
          else done tt (record m {
            blocks = put m.blocks s.items.block (some (set xs (s.items.offset + pos_part i) v));
          }))
  unfolding at_write
  at_write-items i v = rw check-pass (elim (Bool-cases (bad_index s i)) [
    | inl bad ↦ rw bad refl
    | inr good ↦ rw (good, write_item-set (pos_part i) v (good_index i good)) refl
  ])

  pub at_write-inside :
      (i : ℕ) (v : A)
      → i < s.len
      → at_write s (pos i) v m
        ≡ done tt (record m {
          blocks = put m.blocks s.items.block (some (set xs (s.items.offset + i) v));
        })
  at_write-inside i v h =
      let inside : bad_index s (pos i) ≡ false = rw (bad_index-pos i) (ground arith) in
      at_write-items (pos i) v ∙ rw inside refl

-- An index out of range panics, in a nil slice too.
module _ {A : Type 0} (m : Memory (List A)) (s : Slice) where
  check_cases : (check s m ≡ stopped invalid_memory) ⊎ (check s m ≡ done tt m)
  unfolding check is_nil
  check_cases = elim (Bool-cases (s.items.block == 0)) [
    | inl null ↦ inl (rw null refl)
    | inr there ↦ inr (rw there refl)
  ]

  pub at-bad : (i : ℤ) → bad_index s i ≡ true → (p : Panic) × (at s i m ≡ stopped p)
  unfolding at
  at-bad i bad = elim check_cases [
    | inl null ↦ (invalid_memory, rw null refl)
    | inr there ↦ (index_out_of_range i s.len, rw there (rw bad refl))
  ]

  pub at_write-bad :
      (i : ℤ) (v : A) → bad_index s i ≡ true → (p : Panic) × (at_write s i v m ≡ stopped p)
  unfolding at_write
  at_write-bad i v bad = elim check_cases [
    | inl null ↦ (invalid_memory, rw null refl)
    | inr there ↦ (index_out_of_range i s.len, rw there (rw bad refl))
  ]

pub get_or-set :
    {A : Type 0} (xs : List A) (k l : ℕ) (v d : A)
    → k < length xs
    → get_or (set xs k v) l d ≡ (if k == l then v else get_or xs l d)
get_or-set [] k l v d h = absurd (omega arith)
get_or-set (x ∷ xs) zero zero v d h = refl
get_or-set (x ∷ xs) zero (suc l) v d h = ground arith
get_or-set (x ∷ xs) (suc k) zero v d h = ground arith
get_or-set (x ∷ xs) (suc k) (suc l) v d h = ground (arith, get_or-set xs k l v d)

module _ {A : Type 0} {m : Memory (List A)} {s t : Slice} {xs : List A} (o : In m s xs)
    (p : In m t xs) where
  abbrev pub written : ℕ → A → Memory (List A)
  written k v = record m { blocks = put m.blocks s.items.block (some (set xs k v)) }

  pub In-written : t.items.block ≡ s.items.block → (k : ℕ) (v : A) → In (written k v) t (set xs k v)
  In-written same k v = record {
    allocated = rw same (put_same m.blocks s.items.block (some (set xs k v)));
    not_nil = p.not_nil;
    fits = rw (length-set xs k v) p.fits;
    within = p.within;
  }

  -- For two slices whose items lie in one allocated array, overlapping or not, a write through an
  -- index of the first and then a read through an index of the second: the panic of the first
  -- index that is out of range; else the item written, if both indices name the same item of the
  -- array, and else the item that was there, with that one item of the array changed.
  pub at-at_write_shared :
      t.items.block ≡ s.items.block
      → (i j : ℤ) (v : A)
      → (at_write s i v >> at t j) m ≡ (
          if not (in_range i s.len)
          then stopped (index_out_of_range i s.len)
          else if not (in_range j t.len)
          then stopped (index_out_of_range j t.len)
          else done
              (if s.items.offset + pos_part i == t.items.offset + pos_part j
                then v
                else get_or xs (t.items.offset + pos_part j) v)
              (record m {
                blocks = put m.blocks s.items.block (some (set xs (s.items.offset + pos_part i) v));
              }))
  at-at_write_shared same i j v =
      let k = s.items.offset + pos_part i in
      rw (← bad_index-in_range o i, ← bad_index-in_range p j, at_write-items o i v)
        (elim (Bool-cases (bad_index s i)) [
          | inl bad ↦ rw bad refl
          | inr good ↦ rw good (
              rw (← get_or-set xs k (t.items.offset + pos_part j) v v (good_index o i good))
                (at-items (In-written same k v) j v))
        ])

get_elem?-outside : {A : Type 0} (xs : List A) (i : ℕ) → length xs ≤ i → get_elem? xs i ≡ none
get_elem?-outside [] i h = refl
get_elem?-outside (x ∷ xs) zero h = absurd (omega arith)
get_elem?-outside (x ∷ xs) (suc i) h = get_elem?-outside xs i (omega arith)

-- Reads and writes at any place of an allocated array, and past its end.
module _ {A : Type 0} (m : Memory (List A)) (p : Place) (xs : List A)
    (allocated : m.blocks p.block ≡ some xs) (k : ℕ) where
  pub read_item-place :
      (v : A)
      → read_item p k m ≡ (
          if ltb (p.offset + k) (length xs) then done (get_or xs (p.offset + k) v) m else undefined)
  unfolding read_item
  read_item-place v =
      let result : Option A → Cmd (List A) A = λ q. elim q [ none ↦ undef | some x ↦ pure x ] in
      rw (load_block-some m p.block xs allocated)
        (elim (Bool-cases (ltb (p.offset + k) (length xs))) [
          | inl inside ↦
              rw inside (ap (λ q. result q m) (get_elem?-get_or xs (p.offset + k) v (ground arith)))
          | inr outside ↦
              rw outside (ap (λ q. result q m) (get_elem?-outside xs (p.offset + k) (ground arith)))
        ])

  pub write_item-place :
      (v : A)
      → write_item p k v m ≡ (
          if ltb (p.offset + k) (length xs)
          then done tt (record m { blocks = put m.blocks p.block (some (set xs (p.offset + k) v)) })
          else undefined)
  unfolding write_item put_block
  write_item-place v =
      rw (load_block-some m p.block xs allocated)
        (elim (Bool-cases (ltb (p.offset + k) (length xs))) [
          | inl inside ↦ rw inside refl
          | inr outside ↦ rw outside refl
        ])
