-- ===== src/Builtin/Copying.antt =====
-- `copy` between slices of different arrays.
use jule.Common.{
  ℕ, ◌+◌, ◌-◌, ◌≤◌, ◌<◌, ◌≡◌, ◌≢◌, refl, ap, ◌∙◌, true, false, ◌||◌, List, some, ltb, ◌==◌, arith,
  if◌then◌else◌, length, get_or,
}
use jule.Common.Int.{pos}
use native.Mathlib.Decide.{ℕ_discrete}
use jule.Memory.{Memory, done, put_same, put_other, put_own}
use jule.Slice.{Slice, place, empty, copy_items, at}
use jule.Slice.Items.{In, at-inside}
use jule.Slice.Copy.{pasted, length-pasted, get_or-pasted, copy_items-pasted, holding}
use jule.Builtin.{copy}

-- The smaller length.
abbrev pub shorter : ℕ → ℕ → ℕ
shorter a b = if ltb a b then a else b

code_length : (a b : ℕ) → (if ltb a b then a else if ltb b a then b else a) ≡ shorter a b
code_length a b = ground arith

empty_len :
    {A : Type 0} {m : Memory (List A)} {s : Slice} {xs : List A}
    → In m s xs
    → empty s ≡ (s.len == 0)
unfolding empty
empty_len {s} o = ground (arith, o.not_nil, o.within)

module _ {A : Type 0} (d : A) {m : Memory (List A)} {dest src : Slice} {ys xs : List A}
    (to : In m dest ys) (from : In m src xs) (apart : src.items.block ≢ dest.items.block) where
  -- Items from `src` on, pasted from item `q` of the array of `dest` on.
  pub copy_items-run :
      (n q : ℕ)
      → n ≤ src.len
      → q + n ≤ length ys
      → copy_items n 0 src.items (place dest.items.block q) m
        ≡ done tt (holding m dest.items.block (pasted d n xs src.items.offset ys q))
  copy_items-run n q h k =
      let b = dest.items.block in
      let run =
        copy_items-pasted d m src.items.block b xs from.not_nil to.not_nil apart from.allocated n 0
          src.items.offset q ys (omega (arith, from.fits, from.within)) (omega arith) in
      let zero_p : src.items.offset + 0 ≡ src.items.offset = omega arith in
      let zero_q : q + 0 ≡ q = omega arith in
      rw (zero_p, zero_q, put_own m.blocks b to.allocated) at run

  In-dest : (zs : List A) → length zs ≡ length ys → In (holding m dest.items.block zs) dest zs
  In-dest zs size = record {
    allocated = put_same m.blocks dest.items.block (some zs);
    not_nil = to.not_nil;
    fits = omega (arith, to.fits, size);
    within = to.within;
  }

  In-src : (zs : List A) → In (holding m dest.items.block zs) src xs
  In-src zs = record {
    allocated =
        put_other m.blocks dest.items.block src.items.block (some zs) apart ∙ from.allocated;
    not_nil = from.not_nil;
    fits = from.fits;
    within = from.within;
  }

  -- `copy` between two slices in different allocated arrays gives the smaller length, and that many
  -- items at the front of the destination are those of the source; the other items of the
  -- destination and the array of the source stay as they were.
  pub copy-items :
      (m' : Memory (List A)) × (copy dest src m ≡ done (shorter src.len dest.len) m')
      × ((i : ℕ)
          → i < dest.len
          → at dest (pos i) m'
            ≡ done
                (if ltb i (shorter src.len dest.len)
                  then get_or xs (src.items.offset + i) d
                  else get_or ys (dest.items.offset + i) d)
                m')
      × In m' src xs
  unfolding copy
  copy-items =
      let n = shorter src.len dest.len in
      let zs = pasted d n xs src.items.offset ys dest.items.offset in
      let small : n ≤ src.len = ground arith in
      let small' : n ≤ dest.len = ground arith in
      let room : dest.items.offset + n ≤ length ys = omega (arith, to.fits, to.within) in
      let size = length-pasted d n xs src.items.offset ys dest.items.offset in
      let run = copy_items-run n dest.items.offset small room in
      elim (ℕ_discrete n 0) [
        | yes nothing ↦
            let idle : ((dest.len == 0) || (src.len == 0)) ≡ true = ground arith in
            (
              m,
              rw (empty_len to, empty_len from) (rw (idle, nothing) refl),
              (λ i h.
                  let none_copied : ltb i n ≡ false = ground arith in
                  rw none_copied (at-inside to i d h)),
              from,
            )
        | no something ↦
            let a : (dest.len == 0) ≡ false = ground arith in
            let b : (src.len == 0) ≡ false = ground arith in
            let o : In (holding m dest.items.block zs) dest zs = In-dest zs size in
            (
              holding m dest.items.block zs,
              rw (empty_len to, empty_len from)
                  (rw (a, b) (rw (code_length src.len dest.len) (rw run refl))),
              (λ i h.
                  let back : dest.items.offset + i - dest.items.offset ≡ i = omega arith in
                  let item =
                    get_or-pasted d n xs src.items.offset ys dest.items.offset
                      (dest.items.offset + i) room in
                  at-inside o i d h
                  ∙ ap (λ x. done x (holding m dest.items.block zs))
                      (ground (arith, rw back at item))),
              In-src zs,
            )
      ]
