-- ===== src/Str/Slicing.antt =====
-- `slice`, `mut_slice` and `at`: the ranges that are accepted, and what they give.
use jule.Common.{
  ℕ, zero, suc, ◌+◌, ◌-◌, ◌≤◌, ◌<◌, ◌≡◌, ◌≢◌, ◌↔◌, refl, ap, ◌∙◌, false, ◌==◌, if◌then◌else◌, [],
  ◌∷◌, length, take, drop, get_or, set, length-take, length-drop, length-set, arith, Bool-cases,
  ◌⊎◌, inl, inr, ltb,
}
use native.Mathlib.Nat.{zero-add}
use jule.Common.Int.{ℤ, pos, negsuc, ◌<ℤ◌, eq_int, pos_part}
use jule.Panic.{ok, panic, ◌>>=◌, slicing_out_of_range, index_out_of_range}
use jule.Str.{
  Str, slice, slice_all, mut_slice, mut_slice_all, at, at_write, out_of_range, bad_index,
}

-- Cutting the string itself gives what `slice` gives, panics included.
mut_slice-slice : (s : Str) (start end : ℤ) → mut_slice s start end ≡ slice s start end
unfolding mut_slice slice
mut_slice-slice s start end = refl

take_zero : (a b : ℕ) (s : Str) → a ≡ b → take (b - a) (drop a s) ≡ []
take_zero a b s e = let z : b - a ≡ 0 = omega arith in rw z

-- Inside the range a slice is the bytes from `a` up to `b`.
slice_inside :
    (s : Str) (a b : ℕ)
    → a ≤ b
    → b ≤ length s
    → slice s (pos a) (pos b) ≡ ok (take (b - a) (drop a s))
unfolding slice
slice_inside s a b h k =
    let inside : out_of_range (pos a) (pos b) (length s) ≡ false = ground arith in
    rw inside
      (elim (Bool-cases (a == b)) [ inl e ↦ rw (e, take_zero a b s (ground arith)) | inr n ↦ rw n ])

slice_inside_ne :
    (s : Str) (start end : ℤ)
    → out_of_range start end (length s) ≡ false
    → slice s start end ≢ panic (slicing_out_of_range start end (length s))
unfolding slice
slice_inside_ne s start end within = rw within (elim (Bool-cases (pos_part start == pos_part end)) [
  | inl e ↦ rw e (λ q. cc)
  | inr n ↦ rw n (λ q. cc)
])

-- Slicing panics, naming the two bounds and the length, exactly when the start is negative, the
-- end is before the start, or the end is past the length.
slice_outside :
    (s : Str) (start end : ℤ)
    → (slice s start end ≡ panic (slicing_out_of_range start end (length s)))
      ↔ ((start <ℤ pos 0) ⊎ ((end <ℤ start) ⊎ (pos (length s) <ℤ end)))
unfolding slice
slice_outside s start end = elim (Bool-cases (out_of_range start end (length s))) [
  | inl out ↦ (λ _. ground arith, λ _. rw out)
  | inr within ↦ (λ e. absurd (slice_inside_ne s start end within e), λ h. ground arith)
]

get_or-take : (n : ℕ) (s : Str) (i : ℕ) → i < n → get_or (take n s) i 0 ≡ get_or s i 0
get_or-take zero s i h = absurd (omega arith)
get_or-take (suc n) [] i h = refl
get_or-take (suc n) (x ∷ s) zero h = refl
get_or-take (suc n) (x ∷ s) (suc i) h = get_or-take n s i (omega arith)

get_or-drop : (a : ℕ) (s : Str) (i : ℕ) → get_or (drop a s) i 0 ≡ get_or s (a + i) 0
get_or-drop zero s i = rw zero-add
get_or-drop (suc a) [] i = ground arith
get_or-drop (suc a) (x ∷ s) i =
    get_or-drop a s i ∙ (let e : suc a + i ≡ suc (a + i) = omega arith in rw e)

-- Byte `i` of a slice from `a` to `b`, with bounds in order and within the string, is byte `a +
-- i` of the string when `i` is below `b - a`; from there on the access panics with the slice's
-- length.
at-slice :
    (s : Str) (a b i : ℕ)
    → a ≤ b
    → b ≤ length s
    → (slice s (pos a) (pos b) >>= λ t. at t (pos i))
      ≡ (if ltb i (b - a) then at s (pos (a + i)) else panic (index_out_of_range (pos i) (b - a)))
unfolding at
at-slice s a b i h k = rw (slice_inside s a b h k) (
    ground (
      arith,
      get_or-take (b - a) (drop a s) i,
      get_or-drop a s i,
      length-take (b - a) (drop a s),
      length-drop a s,
    ))

get_or-set_self : (s : Str) (i v : ℕ) → i < length s → get_or (set s i v) i 0 ≡ v
get_or-set_self [] i v h = absurd (omega arith)
get_or-set_self (x ∷ s) zero v h = refl
get_or-set_self (x ∷ s) (suc i) v h = get_or-set_self s i v (omega arith)

get_or-set_ne : (s : Str) (i j v : ℕ) → i ≢ j → get_or (set s i v) j 0 ≡ get_or s j 0
get_or-set_ne [] i j v h = refl
get_or-set_ne (x ∷ s) zero zero v h = absurd (h refl)
get_or-set_ne (x ∷ s) zero (suc j) v h = refl
get_or-set_ne (x ∷ s) (suc i) zero v h = refl
get_or-set_ne (x ∷ s) (suc i) (suc j) v h = get_or-set_ne s i j v (omega arith)

-- After a write through `at(i)` byte `i` is the one written and every other access is as before;
-- a write out of range panics with the index and the length.
at-at_write :
    (s : Str) (i j : ℤ) (v : ℕ)
    → (at_write s i v >>= λ t. at t j) ≡ (
        if bad_index s i
        then panic (index_out_of_range i (length s))
        else if eq_int i j
        then ok v
        else at s j)
unfolding at at_write
at-at_write s (pos i) (pos j) v =
    ground (arith, get_or-set_self s i v, get_or-set_ne s i j v, length-set s i v)
at-at_write s (pos i) (negsuc j) v = ground (arith, length-set s i v)
at-at_write s (negsuc i) j v = ground arith

take_all : (s : Str) → take (length s) s ≡ s
take_all [] = refl
take_all (b ∷ s) = ap (λ t. b ∷ t) (take_all s)

-- Slicing without bounds gives the string as it is.
slice_all-mut_slice_all : (s : Str) → (slice_all s ≡ ok s) × (mut_slice_all s ≡ ok s)
unfolding slice_all mut_slice_all
slice_all-mut_slice_all s =
    let whole : slice s (pos 0) (pos (length s)) ≡ ok s =
      slice_inside s 0 (length s) (omega arith) (omega arith)
      ∙ (let size : length s - 0 ≡ length s = omega arith in
          ap ok (ap (λ n. take n s) size ∙ take_all s)) in
    (whole, mut_slice-slice s (pos 0) (pos (length s)) ∙ whole)
