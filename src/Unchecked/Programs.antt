-- ===== src/Unchecked/Programs.antt =====
-- Programs over a slice, with and without the tests of indices.
use jule.Common.{ℕ, ◌+◌, ◌≡◌, subst, some, List, [], ◌∷◌}
use jule.Memory.{Memory, Cmd, done, pure, ◌>>=◌, ◌>>◌}
use jule.Slice.{Slice, push}
use jule.Slice.Sequence.{Lists}
use jule.Slice.Sequence.Pushes.{Supply}
use jule.Slice.Sequence.Programs.{Op, add, read, write, exchange, run, replay, Agrees, run-Agrees}
use jule.Unchecked.Keeps.{Kept, Keeps, Keeps-refl, Keeps-bind}
use jule.Unchecked.Slices.{at, at_write, swap, at-Keeps, at_write-Keeps, swap-Keeps}

module _ {A : Type 0} (blank : A) where
  -- The slice after the operations without tests, and what the reads give.
  pub run_unchecked : (ℕ → ℕ × ℕ) → ℕ → List (Op A) → Slice → Cmd (List A) (Slice × List A)
  run_unchecked fresh i [] s = pure (s, [])
  run_unchecked fresh i (add v ∷ ops) s = do
    t ← push blank (fresh i).0 (fresh i).1 s v
    run_unchecked fresh (i + 1) ops t
  run_unchecked fresh i (read k ∷ ops) s = do
    v ← at s k
    (t, vs) ← run_unchecked fresh i ops s
    pure (t, v ∷ vs)
  run_unchecked fresh i (write k v ∷ ops) s = do at_write s k v; run_unchecked fresh i ops s
  run_unchecked fresh i (exchange j k ∷ ops) s = do swap s j k; run_unchecked fresh i ops s

  run-Keeps :
      (fresh : ℕ → ℕ × ℕ) (ops : List (Op A)) (i : ℕ) (s : Slice)
      → Keeps (run blank fresh i ops s) (run_unchecked fresh i ops s)
  unfolding run run_unchecked
  run-Keeps fresh [] i s = Keeps-refl (pure {T = List A} (s, []))
  run-Keeps fresh (add v ∷ ops) i s =
      Keeps-bind _ _ _ _ (Keeps-refl (push blank (fresh i).0 (fresh i).1 s v))
        (λ t. run-Keeps fresh ops (i + 1) t)
  run-Keeps fresh (read k ∷ ops) i s =
      Keeps-bind _ _ _ _ (at-Keeps s k)
        (λ v. Keeps-bind _ _ _ _ (run-Keeps fresh ops i s) (λ x. Keeps-refl (pure (x.0, v ∷ x.1))))
  run-Keeps fresh (write k v ∷ ops) i s =
      Keeps-bind _ _ _ _ (at_write-Keeps s k v) (λ _. run-Keeps fresh ops i s)
  run-Keeps fresh (exchange j k ∷ ops) i s =
      Keeps-bind _ _ _ _ (swap-Keeps s j k) (λ _. run-Keeps fresh ops i s)

  -- A program of pushes, reads, writes and swaps on a slice that holds a list, where addresses are
  -- supplied: when the same program on the list does not panic, the runs with and without the tests
  -- of indices end alike, with the answers and the items of the list.
  pub run_unchecked-replay :
      {fresh : ℕ → ℕ × ℕ} (ops : List (Op A)) (i : ℕ) (m : Memory (List A)) (s : Slice)
      (ys zs vs : List A)
      → Supply fresh i m
      → Lists blank m s ys
      → replay blank ops ys ≡ some (zs, vs)
      → (t : Slice) × (m' : Memory (List A)) × (run blank fresh i ops s m ≡ done (t, vs) m')
        × (run_unchecked fresh i ops s m ≡ done (t, vs) m')
        × Lists blank m' t zs
  run_unchecked-replay {fresh} ops i m s ys zs vs supply l e =
      let (t, m', ends, l') =
        subst (λ o. Agrees blank o (run blank fresh i ops s m)) e
          (run-Agrees blank ops i m s ys supply l) in
      (
        t,
        m',
        ends,
        subst (λ r. Kept r (run_unchecked fresh i ops s m)) ends (run-Keeps fresh ops i s m),
        l',
      )
