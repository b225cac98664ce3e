-- ===== src/Builtin/Append.antt =====
-- `append`: the copy of the components, and the slice that is given back.
use jule.Common.{
  ℕ, ◌+◌, ◌-◌, ◌<◌, ◌≡◌, ◌≢◌, inl, inr, sym, ap, ◌∙◌, false, ◌&&◌, List, some, ltb, ◌==◌, arith,
  if◌then◌else◌, length, get_or,
}
use native.Mathlib.Decide.{dec_lt}
use jule.Common.Int.{pos}
use jule.Memory.{Memory, done, ◌>>◌, put_same}
use jule.Slice.{Slice, place, is_nil, copy_items, at}
use jule.Slice.Items.{In, at-inside}
use jule.Slice.Copy.{pasted, length-pasted, get_or-pasted, holding}
use jule.Slice.Replace.{Held, copy_then_destroy, Held-holding, Held-longer}
use jule.Slice.Grow.{Unused, Source}
use jule.Builtin.{append, give_back}
use jule.Builtin.Copying.{copy_items-run}
use jule.Builtin.Room.{Roomy, make_room-Roomy}

-- A slice that is given back is the slice itself, and no array changes.
give_back_lem :
    {A : Type 0} (m : Memory (List A)) (s : Slice)
    → s.items.block ≢ 0
    → Held m s
    → (m' : Memory (List A)) × (give_back s m ≡ done s m') × (m'.blocks ≡ m.blocks)
unfolding give_back
give_back_lem m s named held = copy_then_destroy m s named held

module _ {A : Type 0} (blank : A) {m : Memory (List A)} {fresh fresh_ref : ℕ}
    (u : Unused m fresh fresh_ref) {s : Slice} {xs : List A} (source : Source m s xs)
    (held : Held m s) where
  -- The copy of the components behind the items, and the slice that is given back.
  fill :
      {c : Slice} {ys : List A} (t : Slice) (m1 : Memory (List A)) (zs : List A)
      → Roomy blank m fresh s xs c.len t m1 zs
      → In m1 c ys
      → c.items.block ≢ t.items.block
      → (m' : Memory (List A)) × ((copy_items c.len 0 c.items
                (place t.items.block (t.items.offset + t.len))
              >> give_back (record t { len = t.len + c.len }))
            m1
          ≡ done (record t { len = t.len + c.len }) m')
        × In m'
            (record t { len = t.len + c.len })
            (pasted blank c.len ys c.items.offset zs (t.items.offset + t.len))
  fill {c} {ys} t m1 zs r from apart =
      let q = t.items.offset + t.len in
      let ws = pasted blank c.len ys c.items.offset zs q in
      let size : length ws ≡ length zs = length-pasted blank c.len ys c.items.offset zs q in
      let m2 = holding m1 t.items.block ws in
      let long = record t { len = t.len + c.len } in
      let run =
        copy_items-run blank r.lies from apart c.len q (omega arith)
          (omega (arith, r.lies.fits, r.room)) in
      let held2 : Held m2 long =
        Held-longer (Held-holding t.items.block ws r.lies.allocated r.still_held) in
      let (m', back, same) = give_back_lem m2 long r.lies.not_nil held2 in
      (
        m',
        rw run back,
        record {
          allocated = ap (λ f. f t.items.block) same ∙ put_same m1.blocks t.items.block (some ws);
          not_nil = r.lies.not_nil;
          fits = omega (arith, size, r.lies.fits);
          within = r.room;
        },
      )

  -- The items behind `fill`.
  appended-item :
      (c : Slice) (ys : List A) (t : Slice) (m1 : Memory (List A)) (zs : List A)
      → Roomy blank m fresh s xs c.len t m1 zs
      → (i : ℕ) → i < s.len + c.len
      → get_or
          (pasted blank c.len ys c.items.offset zs (t.items.offset + t.len))
          (t.items.offset + i)
          blank
        ≡ (if ltb i s.len
            then get_or xs (s.items.offset + i) blank
            else get_or ys (c.items.offset + (i - s.len)) blank)
  appended-item c ys t m1 zs r i h =
      let q = t.items.offset + t.len in
      let item =
        get_or-pasted blank c.len ys c.items.offset zs q (t.items.offset + i)
          (omega (arith, r.lies.fits, r.room)) in
      elim (dec_lt i s.len) [
        | yes old ↦ ground (arith, item, r.items i old, r.same_len)
        | no new ↦
            let e : c.items.offset + (t.items.offset + i - q) ≡ c.items.offset + (i - s.len) =
              omega (arith, r.same_len) in
            ground (arith, item, ap (λ k. get_or ys k blank) e, r.same_len)
      ]

  -- `append` to a slice that is nil or lies in an allocated array, and that has no counter and no
  -- block or a counter in use, of a slice that is not empty and lies in an array which the first
  -- neither shows nor holds, where the allocations return unused addresses: it ends, in the array
  -- of the first or in a new one, with a slice whose items are those of the first and then those
  -- of the second.
  pub append_refines :
      {c : Slice} {ys : List A}
      → In m c ys
      → 0 < c.len
      → c.items.block ≢ s.items.block
      → c.items.block ≢ s.memory.alloc
      → (t : Slice) × (m' : Memory (List A)) × (append blank fresh fresh_ref s c m ≡ done t m')
        × (t.len ≡ s.len + c.len)
        × ((i : ℕ)
            → i < s.len + c.len
            → at t (pos i) m'
              ≡ done
                  (if ltb i s.len
                    then get_or xs (s.items.offset + i) blank
                    else get_or ys (c.items.offset + (i - s.len)) blank)
                  m')
  unfolding append is_nil
  append_refines {c} {ys} o some_c apart apart_alloc =
      let (r, m1, zs, run, roomy) = make_room-Roomy blank u source held c.len some_c in
      let not_fresh : c.items.block ≢ fresh =
        λ e. ground (arith, sym u.no_block ∙ sym (ap m.blocks e) ∙ o.allocated) in
      let from : In m1 c ys = record {
        allocated = roomy.kept c.items.block apart_alloc not_fresh ∙ o.allocated;
        not_nil = o.not_nil;
        fits = o.fits;
        within = o.within;
      } in
      let apart' : c.items.block ≢ r.items.block = elim roomy.place [
        | inl old ↦ λ e. apart (e ∙ old)
        | inr new ↦ λ e. not_fresh (e ∙ new)
      ] in
      let (m', rest, lies) = fill r m1 zs roomy from apart' in
      let named : (c.items.block == 0) ≡ false = ground (arith, o.not_nil) in
      let busy : (c.len == 0) ≡ false = ground arith in
      let never_nil : ((s.items.block == 0) && false) ≡ false = ground arith in
      (
        record r { len = r.len + c.len },
        m',
        rw (named, never_nil, busy) (rw run rest),
        ap (λ l. l + c.len) roomy.same_len,
        λ i h.
            at-inside lies i blank (omega (arith, roomy.same_len))
            ∙ ap (λ x. done x m') (appended-item c ys r m1 zs roomy i h),
      )
