-- ===== src/Env/Arguments.antt =====
-- The slice of the arguments of the process.
use jule.Common.{
  ℕ, zero, suc, ◌+◌, ◌≤◌, ◌<◌, ◌≡◌, ◌≢◌, refl, ap, ◌∙◌, Option, some, List, [], ◌∷◌, arith, length,
  length-set, length-replicate, get_or, set, replicate, ◌==◌, if◌then◌else◌,
}
use jule.Common.Int.{pos}
use jule.Memory.{Memory, done, put_same, put_other, put-put}
use jule.Ptr.Fresh.{allocated}
use jule.Slice.{Slice, place, write_item, at}
use jule.Slice.Items.{In, write_item-set, at-inside, get_or-set}
use jule.Slice.Grow.{Unused, fresh_slice, alloc_new_lem}
use jule.Str.{Str}
use jule.Str.Bytes.{from_c_string}
use jule.Env.{Process, args, args_of, write_args}

-- The strings that a conversion makes of a list of texts.
abbrev pub Texts : (List ℕ → Option Str) → List (List ℕ) → List Str → Type 0
Texts convert [] [] = Unit {0}
Texts convert [] (s ∷ ss) = ⊥
Texts convert (a ∷ argv) [] = ⊥
Texts convert (a ∷ argv) (s ∷ ss) = (convert a ≡ some s) × Texts convert argv ss

module _ {m : Memory (List Str)} {fresh fresh_ref : ℕ} (u : Unused m fresh fresh_ref)
    (convert : List ℕ → Option Str) where
  write_args-Texts :
      (argv : List (List ℕ)) (ss : List Str) (i : ℕ) (ys : List Str)
      → Texts convert argv ss
      → i + length ss ≤ length ys
      → (zs : List Str) × (write_args convert
            (length ss)
            argv
            i
            (place fresh 0)
            (allocated m fresh fresh_ref ys)
          ≡ done tt (allocated m fresh fresh_ref zs))
        × (length zs ≡ length ys)
        × ((k : ℕ) → k < i → get_or zs k [] ≡ get_or ys k [])
        × ((k : ℕ) → k < length ss → get_or zs (i + k) [] ≡ get_or ss k [])
  unfolding write_args
  write_args-Texts [] [] i ys t h = (ys, refl, refl, (λ k l. refl), λ k l. absurd (omega arith))
  write_args-Texts [] (s ∷ ss) i ys t h = absurd t
  write_args-Texts (a ∷ argv) [] i ys t h = absurd t
  write_args-Texts (a ∷ argv) (s ∷ ss) i ys (text, t) h =
      let o : In (allocated m fresh fresh_ref ys) (fresh_slice fresh fresh_ref 0 0) ys = record {
        allocated = put_same m.blocks fresh (some ys);
        not_nil = u.block_ne;
        fits = omega arith;
        within = omega arith;
      } in
      let front : 0 + i ≡ i = omega arith in
      let wrote : write_item (place fresh 0) i s (allocated m fresh fresh_ref ys)
          ≡ done tt (allocated m fresh fresh_ref (set ys i s)) =
        rw (front, put-put m.blocks fresh (some ys) (some (set ys i s))) at
          (write_item-set o i s (omega arith)) in
      let (zs, run, size, before, behind) =
        write_args-Texts argv ss (i + 1) (set ys i s) t (omega (arith, h, length-set ys i s)) in
      let item : (k : ℕ) → get_or (set ys i s) k [] ≡ (if i == k then s else get_or ys k []) =
        λ k. get_or-set ys i k s [] (omega arith) in
      (
        zs,
        rw (text, write_args) (rw wrote run),
        size ∙ length-set ys i s,
        (λ k l. ground (arith, before k (omega arith), item k)),
        λ k l.
            elim k
                as (λ k.
                  k < suc (length ss) → get_or zs (i + k) [] ≡ get_or {A = Str} (s ∷ ss) k []) [
                    | zero ↦ λ l.
                        let e : i + 0 ≡ i = omega arith in
                        ap (λ j. get_or zs j []) e ∙ ground (arith, before i (omega arith), item i)
                    | suc k ↦ λ l.
                        let e : i + suc k ≡ i + 1 + k = omega arith in
                        ap (λ j. get_or zs j []) e ∙ behind k (omega arith)
                  ]
              l,
      )

  pub args_of-items :
      (argc : ℕ) (argv : List (List ℕ)) (ss : List Str)
      → Texts convert argv ss
      → argc ≡ length ss
      → (t : Slice) × (m' : Memory (List Str)) × (args_of convert fresh fresh_ref argc argv m
          ≡ done t m')
        × (t.len ≡ length ss)
        × ((i : ℕ) → i < length ss → at t (pos i) m' ≡ done (get_or ss i []) m')
        × ((b : ℕ) → b ≢ fresh → m'.blocks b ≡ m.blocks b)
  unfolding args_of
  args_of-items argc argv ss texts =
      let n = length ss in
      let ys : List Str = replicate n [] in
      let size : length ys ≡ n = length-replicate {A = Str} n [] in
      let (zs, run, size_z, _, behind) =
        write_args-Texts argv ss 0 ys texts (omega (arith, size)) in
      let t = fresh_slice fresh fresh_ref n n in
      let m' = allocated m fresh fresh_ref zs in
      let o : In m' t zs = record {
        allocated = put_same m.blocks fresh (some zs);
        not_nil = u.block_ne;
        fits = omega (arith, size, size_z);
        within = omega arith;
      } in
      λ count. (
        t,
        m',
        rw count (rw (alloc_new_lem [] u n n) (rw run refl)),
        refl,
        (λ i l. at-inside o i [] l ∙ ap (λ x. done x m') (behind i l)),
        λ b ne. put_other m.blocks fresh b (some zs) ne,
      )

-- For C strings with texts, as many as `argc` counts, where the allocations return unused addresses:
-- `args` ends with the slice of these texts in their order, in an array of its own, and the other
-- arrays stay as they were.
args-items :
    {m : Memory (List Str)} {fresh fresh_ref : ℕ}
    → Unused m fresh fresh_ref
    → (p : Process) (ss : List Str) → Texts from_c_string p.argv ss
    → p.argc ≡ length ss
    → (t : Slice) × (m' : Memory (List Str)) × (args fresh fresh_ref p m ≡ done t m')
      × (t.len ≡ length ss)
      × ((i : ℕ) → i < length ss → at t (pos i) m' ≡ done (get_or ss i []) m')
      × ((b : ℕ) → b ≢ fresh → m'.blocks b ≡ m.blocks b)
unfolding args
args-items u p ss texts count = args_of-items u from_c_string p.argc p.argv ss texts count
