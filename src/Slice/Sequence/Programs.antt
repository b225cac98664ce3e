-- ===== src/Slice/Sequence/Programs.antt =====
-- Programs that push, read, write and swap the items of a slice, against a list.
use jule.Common.{
  ℕ, ◌&&◌, ◌+◌, ◌≡◌, refl, sym, subst, Bool-cases, inl, inr, Option, none, some, List, [], ◌∷◌,
  ◌++◌, length, get_or, set, ltb, if◌then◌else◌, arith,
}
use jule.Common.Int.{ℤ, pos, negsuc, pos_part}
use jule.Memory.{Memory, Cmd, Run, done, stopped, pure, and_then, ◌>>=◌, ◌>>◌}
use jule.Panic.{Panic}
use jule.Slice.{swap, Slice, push, at, at_write}
use jule.Slice.Items.{at-bad, at_write-bad}
use jule.Slice.Sequence.{Lists}
use jule.Slice.Sequence.Writes.{
  inside, outside-bad, write-Lists, read-inside, swapped, swap-inside, swap-bad,
}
use jule.Slice.Sequence.Pushes.{Supply, push-Supply}

pub data Op (A : Type 0) : Type 0 where
  add : A → Op A
  read : ℤ → Op A
  write : ℤ → A → Op A
  exchange : ℤ → ℤ → Op A

module _ {A : Type 0} (blank : A) where
  -- The slice after the operations, and what the reads give; `fresh i` is what the allocations of the
  -- `i`-th `push` return.
  unfoldable pub run : (ℕ → ℕ × ℕ) → ℕ → List (Op A) → Slice → Cmd (List A) (Slice × List A)
  run fresh i [] s = pure (s, [])
  run fresh i (add v ∷ ops) s = do
    t ← push blank (fresh i).0 (fresh i).1 s v
    run fresh (i + 1) ops t
  run fresh i (read k ∷ ops) s = do v ← at s k; (t, vs) ← run fresh i ops s; pure (t, v ∷ vs)
  run fresh i (write k v ∷ ops) s = do at_write s k v; run fresh i ops s
  run fresh i (exchange j k ∷ ops) s = do swap s j k; run fresh i ops s

  -- A result with an answer before the others.
  abbrev pub answered : A → Option (List A × List A) → Option (List A × List A)
  answered v none = none
  answered v (some (zs, vs)) = some (zs, v ∷ vs)

  -- The same on a list; `none` is a panic.
  unfoldable pub replay : List (Op A) → List A → Option (List A × List A)
  replay [] ys = some (ys, [])
  replay (add v ∷ ops) ys = replay ops (ys ++ (v ∷ []))
  replay (read k ∷ ops) ys =
      let rest = replay ops ys in
      if inside ys k then answered (get_or ys (pos_part k) blank) rest else none
  replay (write k v ∷ ops) ys =
      let rest = replay ops (set ys (pos_part k) v) in if inside ys k then rest else none
  replay (exchange j k ∷ ops) ys =
      let rest = replay ops (swapped blank ys (pos_part j) (pos_part k)) in
      if inside ys j && inside ys k then rest else none

  -- A run ends as the list says: with a panic, or with its items and answers.
  abbrev pub Agrees : Option (List A × List A) → Run (List A) (Slice × List A) → Type 0
  Agrees none r = (p : Panic) × (r ≡ stopped p)
  Agrees (some (zs, vs)) r =
      (t : Slice) × (m : Memory (List A)) × (r ≡ done (t, vs) m) × Lists blank m t zs

  Agrees-answered :
      (v : A) (o : Option (List A × List A)) (r : Run (List A) (Slice × List A))
      → Agrees o r
      → Agrees (answered v o) (and_then r (λ x. pure (x.0, v ∷ x.1)))
  Agrees-answered v none r (p, stops) = (p, rw stops refl)
  Agrees-answered v (some (zs, vs)) r (t, m, ends, l) = (t, m, rw ends refl, l)

  -- For any sequence of pushes, and of reads, writes and swaps through indices in and out of range,
  -- on a slice that is the sequence `ys` and holds its array, where the allocations return addresses
  -- that are not null, unused and different: the run panics if an index is out of range in the list
  -- at that point, and else ends with the answers that the list gives and a slice that is the list's
  -- items. It never uses memory that is not allocated.
  pub run-Agrees :
      {fresh : ℕ → ℕ × ℕ} (ops : List (Op A)) (i : ℕ) (m : Memory (List A)) (s : Slice)
      (ys : List A)
      → Supply fresh i m
      → Lists blank m s ys
      → Agrees (replay ops ys) (run fresh i ops s m)
  unfolding replay run
  run-Agrees [] i m s ys supply l = (s, m, refl, l)
  run-Agrees {fresh} (add v ∷ ops) i m s ys supply l =
      let (t, m', pushed, l', later) = push-Supply blank supply l v in
      subst (λ r. Agrees (replay ops (ys ++ (v ∷ []))) (and_then r (run fresh (i + 1) ops)))
        (sym pushed) (run-Agrees ops (i + 1) m' t (ys ++ (v ∷ [])) later l')
  run-Agrees {fresh} (read k ∷ ops) i m s ys supply l = elim (Bool-cases (inside ys k)) [
    | inl good ↦
        rw (good, read-inside blank l k good)
          (Agrees-answered (get_or ys (pos_part k) blank) (replay ops ys) (run fresh i ops s m)
            (run-Agrees ops i m s ys supply l))
    | inr bad ↦
        let (p, stops) = at-bad m s k (outside-bad blank l k bad) in rw bad (p, rw stops refl)
  ]
  run-Agrees {fresh} (write (pos k) v ∷ ops) i m s ys supply l =
      elim (Bool-cases (ltb k (length ys))) [
        | inl good ↦
            let (m', wrote, l', later) = write-Lists blank l supply k v (ground arith) in
            rw (good, wrote) (run-Agrees ops i m' s (set ys k v) later l')
        | inr bad ↦
            let (p, stops) = at_write-bad m s (pos k) v (outside-bad blank l (pos k) bad) in
            rw bad (p, rw stops refl)
      ]
  run-Agrees (write (negsuc k) v ∷ ops) i m s ys supply l =
      let (p, stops) = at_write-bad m s (negsuc k) v (outside-bad blank l (negsuc k) refl) in
      (p, rw stops refl)
  run-Agrees {fresh} (exchange j k ∷ ops) i m s ys supply l =
      elim (Bool-cases (inside ys j && inside ys k)) [
        | inl good ↦
            let (m', swaps, l', later) = swap-inside blank l supply j k good in
            rw (good, swaps)
              (run-Agrees ops i m' s (swapped blank ys (pos_part j) (pos_part k)) later l')
        | inr bad ↦ let (p, stops) = swap-bad blank l j k bad in rw bad (p, rw stops refl)
      ]
