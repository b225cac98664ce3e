-- ===== src/Str/Bytes/Views.antt =====
-- A string as a C string, and the slice over its own buffer.
use jule.Common.{
  ℕ, zero, suc, ◌+◌, ◌≤◌, ◌<◌, ◌≡◌, ◌≢◌, refl, ap, ◌∙◌, false, some, List, [], ◌∷◌, ◌++◌, All, ◌==◌,
  length, length-append, get_or, arith,
}
use native.Mathlib.Nat.{zero-add}
use jule.Common.Int.{pos}
use jule.Memory.{Memory, done}
use jule.Slice.{at, destroy_slice}
use jule.Slice.Items.{In, at-inside}
use jule.Slice.Nil.{destroy_uncounted}
use jule.Str.{Str}
use jule.Str.Bytes.{c_string, from_c_string, fake_slice}

-- A string without zeros, as a C string, is read as it was.
from_c_string-c_string : (s : Str) → All (λ b. b ≢ 0) s → from_c_string (c_string s) ≡ some s
unfolding from_c_string c_string
from_c_string-c_string [] nz = refl
from_c_string-c_string (b ∷ s) (some_byte, nz) =
    let other : (b == 0) ≡ false = ground (arith, some_byte) in
    rw (other, from_c_string-c_string s nz) refl

get_or-front : (s spare : List ℕ) (i : ℕ) → i < length s → get_or (s ++ spare) i 0 ≡ get_or s i 0
get_or-front [] spare i h = absurd (omega arith)
get_or-front (b ∷ s) spare zero h = refl
get_or-front (b ∷ s) spare (suc i) h = get_or-front s spare i (omega arith)

-- The slice over the buffer of a string, which may have spare bytes behind the string, reads the
-- bytes of the string, and its destructor neither frees the buffer nor changes anything else.
fake_slice-at :
    {m : Memory (List ℕ)} (address capacity : ℕ) (s spare : Str)
    → address ≢ 0
    → m.blocks address ≡ some (s ++ spare)
    → length s ≤ capacity
    → capacity ≤ length s + length spare
    → ((i : ℕ)
        → i < length s
        → at (fake_slice address capacity s) (pos i) m ≡ done (get_or s i 0) m)
      × (destroy_slice (fake_slice address capacity s) m ≡ done tt m)
unfolding fake_slice
fake_slice-at {m} address capacity s spare ne buffer fits within =
    let o : In m (fake_slice address capacity s) (s ++ spare) = record {
      allocated = buffer;
      not_nil = ne;
      fits = omega (arith, length-append s spare);
      within = fits;
    } in
    (
      (λ i h. at-inside o i 0 h ∙ ap (λ b. done b m) (rw zero-add (get_or-front s spare i h))),
      destroy_uncounted m (fake_slice address capacity s) refl,
    )
