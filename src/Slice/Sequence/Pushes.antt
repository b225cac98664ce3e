-- ===== src/Slice/Sequence/Pushes.antt =====
-- Pushing the items of a list, with addresses from a supply.
use jule.Common.{ℕ, ◌+◌, ◌≤◌, ◌≡◌, ◌≢◌, sym, ap, ◌∙◌, List, [], ◌∷◌, ◌++◌, arith}
use jule.Memory.{Memory, done}
use jule.Slice.{Slice, push}
use jule.Slice.Grow.{Unused}
use jule.Slice.Replace.{Held, uncounted, counted}
use jule.Slice.Sequence.{Lists, push-Lists}

-- The addresses that the allocations will return, from number `i` on: not null, unused and different.
pub record Supply {A : Type 0} (fresh : ℕ → ℕ × ℕ) (i : ℕ) (m : Memory (List A)) : Type 0 where
  pub unused : (j : ℕ) → i ≤ j → Unused m (fresh j).0 (fresh j).1
  pub other_block : (j k : ℕ) → j ≢ k → (fresh j).0 ≢ (fresh k).0
  pub other_ref : (j k : ℕ) → j ≢ k → (fresh j).1 ≢ (fresh k).1

module _ {A : Type 0} (blank : A) where
  -- The array and the counter of a slice are no addresses that the supply holds.
  held_apart :
      {m : Memory (List A)} {s : Slice} {a r : ℕ}
      → Held m s
      → Unused m a r
      → (a ≢ s.memory.alloc) × (r ≢ s.memory.ref)
  held_apart (uncounted z null) u = ((λ e. u.block_ne (e ∙ null)), λ e. u.ref_ne (e ∙ z))
  held_apart {m} (counted n xs nz some_refs bound count block held) u = (
    (λ e. ground (arith, sym u.no_block ∙ ap m.blocks e ∙ held)),
    λ e. ground (arith, sym u.no_count ∙ ap m.counts e ∙ count),
  )

  module _ {fresh : ℕ → ℕ × ℕ} where
    -- `push` gives the sequence with the item at its end, and leaves the rest of the supply.
    pub push-Supply :
        {m : Memory (List A)} {s : Slice} {ys : List A} {i : ℕ}
        → Supply fresh i m
        → Lists blank m s ys
        → (v : A)
        → (t : Slice) × (m' : Memory (List A)) × (push blank (fresh i).0 (fresh i).1 s v m
            ≡ done t m')
          × Lists blank m' t (ys ++ (v ∷ []))
          × Supply fresh (i + 1) m'
    push-Supply {m} {i} supply l v =
        let (t, m', run, l', (kept, kept_counts)) =
          push-Lists l (supply.unused i (omega arith)) v in
        (
          t,
          m',
          run,
          l',
          record {
            unused = λ j h.
                let u = supply.unused j (omega arith) in
                let (block_apart, ref_apart) = held_apart l.in_use u in
                record {
                  block_ne = u.block_ne;
                  ref_ne = u.ref_ne;
                  no_block =
                      kept (fresh j).0 (supply.other_block j i (omega arith)) block_apart
                      ∙ u.no_block;
                  no_count =
                      kept_counts (fresh j).1 (supply.other_ref j i (omega arith)) ref_apart
                      ∙ u.no_count;
                };
            other_block = supply.other_block;
            other_ref = supply.other_ref;
          },
        )
