-- ===== src/Builtin/Room.antt =====
-- The room that `append` makes for the components.
use jule.Common.{
  ℕ, ◌+◌, ◌-◌, ◌*◌, ◌≤◌, ◌<◌, ◌≡◌, ◌≢◌, ◌⊎◌, inl, inr, refl, sym, ◌∙◌, true, false, List, some, ltb,
  arith, length, length-replicate, get_or, replicate,
}
use native.Mathlib.Decide.{dec_lt}
use jule.Memory.{Memory, done, put_same, put_other}
use jule.Ptr.Fresh.{allocated}
use jule.Slice.{Slice}
use jule.Slice.Items.{In}
use jule.Slice.Copy.{pasted, length-pasted, get_or-pasted}
use jule.Slice.Replace.{Held, counted, replace_lem}
use jule.Slice.Grow.{Unused, Source, fresh_slice, Held-allocated, moved, alloc_lem}
use jule.Builtin.{make_room, alloc_for_append}

module _ {A : Type 0} (blank : A) (m : Memory (List A)) (fresh : ℕ) (s : Slice) (xs : List A) where
  -- The items of a slice after room was made: the slice `t` in an array `zs`.
  pub record Roomy (n : ℕ) (t : Slice) (m' : Memory (List A)) (zs : List A) : Type 0 where
    pub lies : In m' t zs
    pub still_held : Held m' t
    pub same_len : t.len ≡ s.len
    pub room : t.len + n ≤ t.cap
    pub items :
        (i : ℕ)
        → i < s.len
        → get_or zs (t.items.offset + i) blank ≡ get_or xs (s.items.offset + i) blank
    pub place : (t.items.block ≡ s.items.block) ⊎ (t.items.block ≡ fresh)
    pub kept : (b : ℕ) → b ≢ s.memory.alloc → b ≢ fresh → m'.blocks b ≡ m.blocks b

module _ {A : Type 0} (blank : A) {m : Memory (List A)} {fresh fresh_ref : ℕ}
    (u : Unused m fresh fresh_ref) {s : Slice} {xs : List A} (source : Source m s xs)
    (held : Held m s) where
  make_room-new :
      (n : ℕ)
      → s.cap < s.len + n
      → s.len ≤ s.cap
      → (t : Slice) × (m' : Memory (List A)) × (zs : List A) × (make_room blank fresh fresh_ref s n
            m
          ≡ done t m')
        × Roomy blank m fresh s xs n t m' zs
  unfolding make_room alloc_for_append
  make_room-new n short sound =
      let cap = (s.len + n) * 2 in
      let grows : ltb s.cap (s.len + n) ≡ true = ground arith in
      let ys = replicate cap blank in
      let size : length ys ≡ cap = length-replicate cap blank in
      let zs = pasted blank s.len xs s.items.offset ys 0 in
      let size_z : length zs ≡ length ys = length-pasted blank s.len xs s.items.offset ys 0 in
      let new = fresh_slice fresh fresh_ref s.len cap in
      let (held', ref_apart, apart) = Held-allocated blank u zs held in
      let (m', run, one, kept, _) =
        replace_lem (allocated m fresh fresh_ref zs) s new u.ref_ne u.block_ne u.block_ne ref_apart
          (put_same m.counts fresh_ref (some 1)) apart held' in
      let block : m'.blocks fresh ≡ some zs =
        kept fresh (λ e. apart (sym e)) ∙ put_same m.blocks fresh (some zs) in
      (
        new,
        m',
        zs,
        rw grows
            (rw (alloc_lem blank u cap) (rw (moved blank u ys source (omega (arith, size))) run)),
        record {
          lies = record {
            allocated = block;
            not_nil = u.block_ne;
            fits = omega (arith, size, size_z);
            within = omega arith;
          };
          still_held = counted 1 zs u.ref_ne (omega arith) (omega arith) one u.block_ne block;
          same_len = refl;
          room = omega arith;
          items = λ i h.
              let front : 0 + i ≡ i = omega arith in
              let start : i - 0 ≡ i = omega arith in
              let item = get_or-pasted blank s.len xs s.items.offset ys 0 i (omega (arith, size)) in
              rw front (ground (arith, rw start at item));
          place = inr refl;
          kept = λ b ne nf. kept b ne ∙ put_other m.blocks fresh b (some zs) nf;
        },
      )

  make_room-old :
      (n : ℕ)
      → s.len + n ≤ s.cap
      → 0 < n
      → (t : Slice) × (m' : Memory (List A)) × (zs : List A) × (make_room blank fresh fresh_ref s n
            m
          ≡ done t m')
        × Roomy blank m fresh s xs n t m' zs
  unfolding make_room
  make_room-old n fits some_n = elim source [
    | inl (z, y) ↦ absurd (omega arith)
    | inr o ↦
        let stays : ltb s.cap (s.len + n) ≡ false = ground arith in
        (
          s,
          m,
          xs,
          rw stays refl,
          record {
            lies = o;
            still_held = held;
            same_len = refl;
            room = fits;
            items = λ i h. refl;
            place = inl refl;
            kept = λ b ne nf. refl;
          },
        )
  ]

  pub make_room-Roomy :
      (n : ℕ)
      → 0 < n
      → (t : Slice) × (m' : Memory (List A)) × (zs : List A) × (make_room blank fresh fresh_ref s n
            m
          ≡ done t m')
        × Roomy blank m fresh s xs n t m' zs
  make_room-Roomy n some_n = elim (dec_lt s.cap (s.len + n)) [
    | yes short ↦
        make_room-new n short (elim source [ inl (z, y) ↦ omega arith | inr o ↦ o.within ])
    | no fits ↦ make_room-old n (omega arith) some_n
  ]
