-- ===== src/Std/Dynar/Copying.antt =====
-- Assigning a buffer: the items of the new array, and the old array.
use jule.Common.{
  ℕ, ◌+◌, ◌-◌, ◌≤◌, ◌<◌, ◌≡◌, ◌≢◌, inl, inr, refl, sym, ap, ◌∙◌, false, none, some, List, ◌==◌,
  length, length-replicate, get_or, replicate, arith, Bool-cases,
}
use jule.Memory.{Memory, done, put_same, put_other, put_block}
use jule.Slice.Copy.{pasted, length-pasted, get_or-pasted, holding, copy_items-pasted}
use jule.Std.Dynar.{DynarBuffer, assign}

module _ {A : Type 0} (blank : A) (m : Memory (List A)) {fresh : ℕ} (some_block : fresh ≢ 0)
    (unused : m.blocks fresh ≡ none) (ref : DynarBuffer) {xs : List A}
    (source : m.blocks ref.heap ≡ some xs) (named : ref.heap ≢ 0) (fits : ref.len ≤ length xs) where
  -- Assigning a buffer over an allocated array to one over another array, where the allocation
  -- returns an unused address: the result has the source's length, over a new array with the
  -- source's items. All other arrays stay as they were, so that the one that the buffer had is still
  -- allocated, though no buffer names it.
  assign-items :
      (buffer : DynarBuffer)
      → buffer.heap ≢ ref.heap
      → (m' : Memory (List A)) × (zs : List A) × (assign blank fresh buffer ref m
          ≡ done (record { heap = fresh; len = ref.len; cap = ref.len }) m')
        × (m'.blocks fresh ≡ some zs)
        × (length zs ≡ ref.len)
        × ((i : ℕ) → i < ref.len → get_or zs i blank ≡ get_or xs i blank)
        × ((b : ℕ) → b ≢ fresh → m'.blocks b ≡ m.blocks b)
  unfolding assign put_block
  assign-items buffer ne =
      let other : (buffer.heap == ref.heap) ≡ false = ground arith in
      let new : (fresh == 0) ≡ false = ground arith in
      let n = ref.len in
      let ys : List A = replicate n blank in
      let size : length ys ≡ n = length-replicate n blank in
      let zs : List A = pasted blank n xs 0 ys 0 in
      let apart : ref.heap ≢ fresh =
        λ e. ground (arith, sym unused ∙ sym (ap m.blocks e) ∙ source) in
      let run =
        copy_items-pasted blank m ref.heap fresh xs named some_block apart source n 0 0 0 ys
          (omega arith) (omega (arith, size)) in
      (
        holding m fresh zs,
        zs,
        elim (Bool-cases (buffer.heap == 0)) [
          | inl null ↦ rw (null, new) (rw run refl)
          | inr set ↦ rw (set, other, new) (rw run refl)
        ],
        put_same m.blocks fresh (some zs),
        length-pasted blank n xs 0 ys 0 ∙ size,
        (λ i l.
            let first : 0 + (i - 0) ≡ i = omega arith in
            ground (arith, rw first at (get_or-pasted blank n xs 0 ys 0 i (omega (arith, size))))),
        λ b ne'. put_other m.blocks fresh b (some zs) ne',
      )
