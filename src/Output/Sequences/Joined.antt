-- ===== src/Output/Sequences/Joined.antt =====
-- What is written for slices, arrays and maps: their items with separators.
use jule.Common.{
  ℕ, suc, ◌+◌, ◌-◌, ◌≤◌, ◌<◌, ◌≡◌, refl, sym, ap, ◌∙◌, true, false, inl, inr, Bool-cases, List, [],
  ◌∷◌, ◌++◌, map, append-nil, append_assoc, ltb, ◌==◌, length, get_or, arith,
}
use jule.Memory.{Memory, done}
use jule.Slice
use jule.Slice.{Slice, read_item}
use jule.Slice.Items.{In, read_item-get_or}
use jule.Slice.Grow.{Source}
use jule.Map.{Map, len}
use jule.Error.{text}
use jule.Output.{joined}
use jule.Output.Sequences.{
  spaced, slice_items, slice_output, array_items, array_output, map_pairs, map_output,
}

module _ {A : Type 0} (show : A → List ℕ) where
  array_items-joined :
      (src : List A) (index n : ℕ) (stream : List ℕ)
      → index + length src ≡ n
      → array_items show src index n stream ≡ stream ++ joined (text " ") (map show src)
  unfolding array_items
  array_items-joined [] index n stream h = sym (append-nil stream)
  array_items-joined (a ∷ []) index n stream h =
      let last : ltb (index + 1) n ≡ false = ground arith in rw last refl
  array_items-joined (a ∷ b ∷ src) index n stream h =
      let more : ltb (index + 1) n ≡ true = ground arith in
      rw more (
        array_items-joined (b ∷ src) (index + 1) n ((stream ++ show a) ++ text " ") (omega arith)
        ∙ simp (append_assoc))

  -- The loop over a slice writes what the loop over its items does.
  slice_items-array :
      (d : A) {m : Memory (List A)} {s : Slice} {xs : List A} (o : In m s xs) (ys : List A)
      (index : ℕ) (stream : List ℕ)
      → s.items.offset + index + length ys ≤ length xs
      → ((k : ℕ) → k < length ys → get_or xs (s.items.offset + index + k) d ≡ get_or ys k d)
      → slice_items show (length ys) index s stream m
        ≡ done (array_items show ys index s.len stream) m
  unfolding slice_items array_items
  slice_items-array d o [] index stream h same = refl
  slice_items-array d {m} {s} {xs} o (y ∷ ys) index stream h same =
      let here : s.items.offset + index + 0 ≡ s.items.offset + index = omega arith in
      let first : get_or xs (s.items.offset + index) d ≡ y =
        sym (ap (λ k. get_or xs k d) here) ∙ same 0 (omega arith) in
      let rest =
        slice_items-array d o ys (index + 1) (spaced index s.len stream (show y)) (omega (arith, h))
          (λ k l.
            let e : s.items.offset + (index + 1) + k ≡ s.items.offset + index + suc k =
              omega arith in
            ap (λ j. get_or xs j d) e ∙ same (suc k) (omega (arith, l))) in
      rw (read_item-get_or o index d (omega (arith, h))) (rw first rest)

  array_output-joined :
      (stream : List ℕ) (src : List A)
      → array_output show stream src
        ≡ stream ++ (text "[" ++ (joined (text " ") (map show src) ++ text "]"))
  unfolding array_output
  array_output-joined stream src =
      rw (array_items-joined src 0 (length src) (stream ++ text "[") (omega arith))
        (simp (append_assoc))

  -- For a slice that is nil or lies in an allocated array, and that has the items of a list: the
  -- output of the slice ends without a change of the memory and is that of an array of these items,
  -- which is the stream and then, in brackets, the texts of the items with a blank between two.
  pub sequence_output-joined :
      (d : A) {m : Memory (List A)} {s : Slice} {xs : List A} (stream : List ℕ) (ys : List A)
      → Source m s xs
      → s.len ≡ length ys
      → ((k : ℕ) → k < length ys → get_or xs (s.items.offset + k) d ≡ get_or ys k d)
      → (slice_output show stream s m ≡ done (array_output show stream ys) m)
        × (array_output show stream ys
            ≡ stream ++ (text "[" ++ (joined (text " ") (map show ys) ++ text "]")))
  unfolding slice_output array_output array_items Slice.empty
  sequence_output-joined d {m} {s} stream [] source size same =
      let none_there : (s.len == 0) ≡ true = ground arith in
      let closed = ap (λ t. done t m) (sym (append_assoc stream (text "[") (text "]"))) in
      (
        elim (Bool-cases (s.items.block == 0)) [
          | inl null ↦ rw null closed
          | inr there ↦ rw (there, none_there) closed
        ],
        array_output-joined stream [],
      )
  sequence_output-joined d {m} {s} stream (y ∷ ys) (inl (z, _)) size same = absurd (omega arith)
  sequence_output-joined d {m} {s} {xs} stream (y ∷ ys) (inr o) size same =
      let named : (s.items.block == 0) ≡ false = ground (arith, o.not_nil) in
      let some_len : (s.len == 0) ≡ false = ground arith in
      let some_cap : (s.cap == 0) ≡ false = ground (arith, o.within) in
      let here : s.items.offset + 0 ≡ s.items.offset = omega arith in
      let run =
        slice_items-array d o (y ∷ ys) 0 (stream ++ text "[") (omega (arith, o.fits, o.within))
          (λ k l. ap (λ p. get_or xs (p + k) d) here ∙ same k l) in
      (
        rw (named, some_len, some_cap)
            (rw (ap (λ n. slice_items show n 0 s (stream ++ text "[") m) size ∙ run) (
              ap (λ n. done (array_items show (y ∷ ys) 0 n (stream ++ text "[") ++ text "]") m)
                size)),
        array_output-joined stream (y ∷ ys),
      )

module _ {ℓ κ} {K : Type ℓ} {V : Type κ} (show_key : K → List ℕ) (show_value : V → List ℕ) where
  abbrev pub entry : K × V → List ℕ
  entry (k, v) = show_key k ++ (text ":" ++ show_value v)

  map_pairs-joined :
      (pairs : List (K × V)) (n : ℕ) (stream : List ℕ)
      → n ≡ length pairs
      → map_pairs show_key show_value pairs n stream
        ≡ stream ++ joined (text ", ") (map entry pairs)
  unfolding map_pairs
  map_pairs-joined [] n stream h = sym (append-nil stream)
  map_pairs-joined ((k, v) ∷ []) n stream h =
      let last : ltb 0 (n - 1) ≡ false = ground arith in rw last (simp (append_assoc))
  map_pairs-joined ((k, v) ∷ p ∷ pairs) n stream h =
      let more : ltb 0 (n - 1) ≡ true = ground arith in
      rw more (
        map_pairs-joined (p ∷ pairs) (n - 1)
          ((((stream ++ show_key k) ++ text ":") ++ show_value v) ++ text ", ") (omega arith)
        ∙ simp (append_assoc))

  map_output-joined :
      (stream : List ℕ) (src : Map K V)
      → map_output show_key show_value stream src
        ≡ stream ++ (text "{" ++ (joined (text ", ") (map entry src.buffer) ++ text "}"))
  unfolding map_output len
  map_output-joined stream src =
      rw (map_pairs-joined src.buffer (length src.buffer) (stream ++ text "{") refl)
        (simp (append_assoc))
