-- ===== src/Slice/Sequence/Writes.antt =====
-- Reads, writes and swaps through indices of a slice, on its sequence of items.
use jule.Common.{
  ℕ, ◌&&◌, ◌+◌, ◌<◌, ◌≡◌, ◌≢◌, refl, sym, ap, ◌∙◌, Bool, true, false, Bool-cases, inl, inr, some,
  List, length, length-set, get_or, set, ltb, arith,
}
use jule.Common.Int.{ℤ, pos, negsuc, pos_part}
use jule.Memory.{Memory, done, stopped, put_other}
use jule.Panic.{Panic, index_out_of_range}
use jule.Slice.{read_item, write_item, swap, Slice, bad_index, empty, at, at_write}
use jule.Slice.Items.{
  read_item-get_or, write_item-set, bad_index-pos, In-written, written, at_write-inside, get_or-set,
}
use jule.Slice.Replace.{Held-holding}
use jule.Slice.Sequence.{Lists, at-Lists}
use jule.Slice.Sequence.Pushes.{Supply}

-- The index of an item.
abbrev pub inside : {A : Type 0} → List A → ℤ → Bool
inside ys (pos k) = ltb k (length ys)
inside ys (negsuc k) = false

module _ {A : Type 0} (blank : A) where
  module _ {m : Memory (List A)} {s : Slice} {ys : List A} (l : Lists blank m s ys) where
    pub outside-bad : (k : ℤ) → inside ys k ≡ false → bad_index s k ≡ true
    unfolding empty
    outside-bad (pos k) h = ground (arith, l.size)
    outside-bad (negsuc k) h = ground arith

    -- `at_write` of an item changes it in the sequence, and leaves the supply.
    pub write-Lists :
        {fresh : ℕ → ℕ × ℕ} {i : ℕ}
        → Supply fresh i m
        → (k : ℕ) (v : A) → k < length ys
        → (m' : Memory (List A)) × (at_write s (pos k) v m ≡ done tt m')
          × Lists blank m' s (set ys k v)
          × Supply fresh i m'
    write-Lists {fresh} supply k v h = elim l.source [
      | inl (z, _) ↦ absurd (omega (arith, l.size))
      | inr o ↦
          let j = s.items.offset + k in
          let zs = set l.block j v in
          let bound : j < length l.block = omega (arith, l.size, o.fits, o.within) in
          (
            written o o j v,
            at_write-inside o k v (omega (arith, l.size)),
            record {
              block = zs;
              source = inr (In-written o o refl j v);
              in_use = Held-holding s.items.block zs o.allocated l.in_use;
              whole = l.whole;
              size = l.size ∙ sym (length-set ys k v);
              items = λ n b.
                  let near : n < length ys = omega (arith, length-set ys k v) in
                  ground (
                    arith,
                    get_or-set l.block j (s.items.offset + n) v blank bound,
                    get_or-set ys k n v blank h,
                    l.items n near,
                  );
            },
            record {
              unused = λ n b.
                  let u = supply.unused n b in
                  let apart : (fresh n).0 ≢ s.items.block =
                    λ e. ground (arith, sym u.no_block ∙ ap m.blocks e ∙ o.allocated) in
                  record {
                    block_ne = u.block_ne;
                    ref_ne = u.ref_ne;
                    no_block =
                        put_other m.blocks s.items.block (fresh n).0 (some zs) apart ∙ u.no_block;
                    no_count = u.no_count;
                  };
              other_block = supply.other_block;
              other_ref = supply.other_ref;
            },
          )
    ]

    pub read-inside :
        (k : ℤ) → inside ys k ≡ true → at s k m ≡ done (get_or ys (pos_part k) blank) m
    read-inside (pos k) h = at-Lists l k (ground arith)
    read-inside (negsuc k) h = absurd (ground arith)

  module _ {m : Memory (List A)} {s : Slice} {ys : List A} (l : Lists blank m s ys) where
    read_item-Lists : (k : ℕ) → k < length ys → read_item s.items k m ≡ done (get_or ys k blank) m
    read_item-Lists k h = elim l.source [
      | inl (z, _) ↦ absurd (omega (arith, l.size))
      | inr o ↦
          read_item-get_or o k blank (omega (arith, l.size, o.fits, o.within))
          ∙ ap (λ x. done x m) (l.items k h)
    ]

    write_item-at_write :
        (k : ℕ) (v : A) → k < length ys → write_item s.items k v m ≡ at_write s (pos k) v m
    write_item-at_write k v h = elim l.source [
      | inl (z, _) ↦ absurd (omega (arith, l.size))
      | inr o ↦
          write_item-set o k v (omega (arith, l.size, o.fits, o.within))
          ∙ sym (at_write-inside o k v (omega (arith, l.size)))
    ]

    inside-good : (k : ℕ) → k < length ys → bad_index s (pos k) ≡ false
    inside-good k h = elim l.source [
      | inl (z, _) ↦ absurd (omega (arith, l.size))
      | inr o ↦ rw (bad_index-pos o k) (ground (arith, l.size))
    ]

    pub swap-bad :
        (i j : ℤ) → (inside ys i && inside ys j) ≡ false → (p : Panic) × (swap s i j m ≡ stopped p)
    unfolding swap
    swap-bad i j h = elim (Bool-cases (bad_index s i)) [
      | inl bad ↦ (index_out_of_range i s.len, rw bad refl)
      | inr good ↦
          let outside : inside ys j ≡ false = elim (Bool-cases (inside ys i)) [
            | inl here ↦ rw here at h
            | inr out ↦ absurd (ground (arith, outside-bad l i out, good))
          ] in
          (index_out_of_range j s.len, rw good (rw (outside-bad l j outside) refl))
    ]

  -- The list with two items swapped.
  abbrev pub swapped : List A → ℕ → ℕ → List A
  swapped ys i j = set (set ys i (get_or ys j blank)) j (get_or ys i blank)

  -- `swap` of two items changes just these in the sequence, and leaves the supply.
  swap-Lists :
      {m : Memory (List A)} {s : Slice} {ys : List A} {fresh : ℕ → ℕ × ℕ} {n : ℕ}
      → Lists blank m s ys
      → Supply fresh n m
      → (i j : ℕ) → i < length ys
      → j < length ys
      → (m' : Memory (List A)) × (swap s (pos i) (pos j) m ≡ done tt m')
        × Lists blank m' s (swapped ys i j)
        × Supply fresh n m'
  unfolding swap
  swap-Lists {m} {s} {ys} l supply i j hi hj =
      let x = get_or ys i blank in
      let y = get_or ys j blank in
      let (m1, first, l1, supply1) = write-Lists l supply i y hi in
      let hj' : j < length (set ys i y) = omega (arith, length-set ys i y) in
      let (m2, second, l2, supply2) = write-Lists l1 supply1 j x hj' in
      (
        m2,
        rw (inside-good l i hi, inside-good l j hj)
            (rw (read_item-Lists l i hi) (
              rw (read_item-Lists l j hj) (
                rw (write_item-at_write l i y hi ∙ first)
                  (write_item-at_write l1 j x hj' ∙ second)))),
        l2,
        supply2,
      )

  pub swap-inside :
      {m : Memory (List A)} {s : Slice} {ys : List A} {fresh : ℕ → ℕ × ℕ} {n : ℕ}
      → Lists blank m s ys
      → Supply fresh n m
      → (i j : ℤ) → (inside ys i && inside ys j) ≡ true
      → (m' : Memory (List A)) × (swap s i j m ≡ done tt m')
        × Lists blank m' s (swapped ys (pos_part i) (pos_part j))
        × Supply fresh n m'
  swap-inside l supply (pos i) (pos j) h = swap-Lists l supply i j (ground arith) (ground arith)
  swap-inside l supply (pos i) (negsuc j) h = absurd (ground arith)
  swap-inside l supply (negsuc i) j h = absurd (ground arith)
