-- ===== src/Unchecked/Texts.antt =====
-- Strings, arrays, functions and division without their tests (api/str.hpp, api/array.hpp,
-- api/fn.hpp, api/misc.hpp). `none` is undefined behaviour, or a C++ exception that ends the process.
use jule.Common.{
  ℕ, zero, suc, ◌+◌, ◌-◌, ◌<◌, ◌≡◌, refl, Bool, Bool-cases, inl, inr, true, false, Option, none,
  some, List, [], ◌∷◌, length, length-drop, length-set, take, drop, get_or, get_elem?, set, ltb,
  ◌==◌, if◌then◌else◌, ◌||◌, ◌&&◌, arith,
}
use jule.Common.Int.{ℤ, pos, negsuc, pos_part, neg_part, lt_int, eq_int}
use jule.Utf16.{◌>>=◌}
use jule.Panic.{Panic, Outcome, panic}
use jule.Str
use jule.Str.{Str}
use jule.Array
use jule.Fn
use jule.Fn.{Fn}
use jule.Arithmetic
use jule.Unchecked.Keeps.{Answers}

-- `Str::slice(start, end)`: `substr` of a start past the end ends the process, and a length past
-- the end, a negative one too, is cut.
pub str_slice : Str → ℤ → ℤ → Option Str
str_slice s start end =
    if eq_int start end
    then some []
    else if lt_int start (pos 0) || ltb (length s) (pos_part start)
    then none
    else (let rest = drop (pos_part start) s in
        some (if lt_int end start then rest else take (pos_part end - pos_part start) rest))

-- `end - start`, for a start that is not greater.
abbrev distance : ℤ → ℤ → ℕ
distance start end = pos_part end + neg_part start - (pos_part start + neg_part end)

-- `Str::mut_slice(start, end)`: the first `erase` takes off what there is, the whole string for a
-- negative start; the second ends the process if what it keeps is negative or past the end.
pub str_mut_slice : Str → ℤ → ℤ → Option Str
str_mut_slice s start end =
    let rest = if lt_int start (pos 0) then [] else drop (pos_part start) s in
    if eq_int start end
    then some []
    else if lt_int end start
    then none
    else if ltb (length rest) (distance start end)
    then none
    else some (take (distance start end) rest)

-- `Str::at(index)`, a read, which finds a zero just behind the bytes, and a write, where only that
-- zero may be written.
pub str_at : Str → ℤ → Option ℕ
str_at s (pos k) = if k == length s then some 0 else get_elem? s k
str_at s (negsuc k) = none

pub str_at_write : Str → ℤ → ℕ → Option Str
str_at_write s (pos k) v =
    if ltb k (length s) then some (set s k v) else if k == length s && v == 0 then some s else none
str_at_write s (negsuc k) v = none

module _ {A : Type 0} where
  -- `Array::at(index)`, a read and a write, and `Array::swap(i, j)`.
  pub array_at : List A → ℤ → Option A
  array_at a (pos k) = get_elem? a k
  array_at a (negsuc k) = none

  pub array_at_write : List A → ℤ → A → Option (List A)
  array_at_write a (pos k) v = if ltb k (length a) then some (set a k v) else none
  array_at_write a (negsuc k) v = none

  pub array_swap : List A → ℤ → ℤ → Option (List A)
  unfolding array_at array_at_write
  array_swap a i j = do
    x ← array_at a i
    y ← array_at a j
    b ← array_at_write a i y
    array_at_write b j x

-- `Fn::call(arguments...)`: a call of an empty `std::function` throws.
pub call {ℓ κ} : {A : Type ℓ} {B : Type κ} → Fn A B → A → Option (Outcome B)
call f arguments = elim f.buffer [ none ↦ none | some g ↦ some (g arguments) ]

-- `div` and `mod`
pub div : ℕ → ℤ → ℤ → Option ℤ
div w x denominator = Arithmetic.unsafe_div w x denominator

pub modulo : ℕ → ℤ → ℤ → Option ℤ
modulo w x denominator = Arithmetic.unsafe_mod w x denominator

-- Where a function is held and a denominator is not zero, calls, divisions and remainders are as
-- with the tests.
call-kept {ℓ κ} :
    {A : Type ℓ} {B : Type κ} (f : Fn A B) (g : A → Outcome B) (x : A)
    → f.buffer ≡ some g
    → call f x ≡ some (Fn.call f x)
unfolding call Fn.call
call-kept f g x e = rw e refl

div-Answers :
    (w : ℕ) (x y : ℤ)
    → Answers (Arithmetic.div w x y) (some (div w x y))
      × Answers (Arithmetic.modulo w x y) (some (modulo w x y))
unfolding Arithmetic.div Arithmetic.modulo div modulo
div-Answers w x y = elim (Bool-cases (eq_int y (pos 0))) [
  | inl zero' ↦ rw zero' (tt, tt)
  | inr other ↦ rw other (refl, refl)
]

-- What an index finds in a list.
get_elem?-inside {ℓ} :
    {A : Type ℓ} (a : List A) (k : ℕ) (d : A) → k < length a → get_elem? a k ≡ some (get_or a k d)
get_elem?-inside [] k d h = absurd (omega arith)
get_elem?-inside (x ∷ a) zero d h = refl
get_elem?-inside (x ∷ a) (suc k) d h = get_elem?-inside a k d (omega arith)

-- A test before an answer.
Answers-guard {ℓ} :
    {A : Type ℓ} (b : Bool) (p : Panic) (r : Outcome A) (o : Option A)
    → (b ≡ false → Answers r o)
    → Answers (if b then panic p else r) o
Answers-guard true p r o k = tt
Answers-guard false p r o k = k refl

at-Answers : (s : Str) (index : ℤ) → Answers (Str.at s index) (str_at s index)
unfolding Str.at str_at
at-Answers s (pos k) = Answers-guard (Str.bad_index s (pos k)) _ _ _ λ good.
    let behind : (k == length s) ≡ false = ground arith in
    rw behind (get_elem?-inside s k 0 (ground arith))
at-Answers s (negsuc k) =
    Answers-guard (Str.bad_index s (negsuc k)) _ _ _ λ good. absurd (ground arith)

at_write-Answers :
    (s : Str) (index : ℤ) (v : ℕ) → Answers (Str.at_write s index v) (str_at_write s index v)
unfolding Str.at_write str_at_write
at_write-Answers s (pos k) v =
    Answers-guard (Str.bad_index s (pos k)) _ _ _
      λ good. let inside : ltb k (length s) ≡ true = ground arith in rw inside refl
at_write-Answers s (negsuc k) v =
    Answers-guard (Str.bad_index s (negsuc k)) _ _ _ λ good. absurd (ground arith)

slice-Answers : (s : Str) (start end : ℤ) → Answers (Str.slice s start end) (str_slice s start end)
unfolding Str.slice str_slice
slice-Answers s (pos a) (pos b) =
    Answers-guard (Str.out_of_range (pos a) (pos b) (length s)) _ _ _ λ good.
      elim (Bool-cases (a == b)) [
        | inl same ↦ rw same (ground arith)
        | inr other ↦ rw other (ground arith)
      ]
slice-Answers s (pos a) (negsuc b) =
    Answers-guard (Str.out_of_range (pos a) (negsuc b) (length s)) _ _ _
      λ good. absurd (ground arith)
slice-Answers s (negsuc a) end =
    Answers-guard (Str.out_of_range (negsuc a) end (length s)) _ _ _ λ good. absurd (ground arith)

mut_slice-Answers :
    (s : Str) (start end : ℤ) → Answers (Str.mut_slice s start end) (str_mut_slice s start end)
unfolding Str.mut_slice str_mut_slice
mut_slice-Answers s (pos a) (pos b) =
    Answers-guard (Str.out_of_range (pos a) (pos b) (length s)) _ _ _ λ good.
      let size : length (drop a s) ≡ length s - a = length-drop a s in
      elim (Bool-cases (a == b)) [
        | inl same ↦ rw same (ground arith)
        | inr other ↦ rw other (ground (arith, size))
      ]
mut_slice-Answers s (pos a) (negsuc b) =
    Answers-guard (Str.out_of_range (pos a) (negsuc b) (length s)) _ _ _
      λ good. absurd (ground arith)
mut_slice-Answers s (negsuc a) end =
    Answers-guard (Str.out_of_range (negsuc a) end (length s)) _ _ _ λ good. absurd (ground arith)

-- Reads, writes and slices of a string that do not panic give the same without the tests.
pub Str-Answers :
    (s : Str) (start end : ℤ) (v : ℕ)
    → Answers (Str.at s start) (str_at s start)
      × Answers (Str.at_write s start v) (str_at_write s start v)
      × Answers (Str.slice s start end) (str_slice s start end)
      × Answers (Str.mut_slice s start end) (str_mut_slice s start end)
Str-Answers s start end v = (
  at-Answers s start,
  at_write-Answers s start v,
  slice-Answers s start end,
  mut_slice-Answers s start end,
)

module _ {A : Type 0} (d : A) (a : List A) where
  array_at-Answers : (index : ℤ) → Answers (Array.at d a index) (array_at a index)
  unfolding Array.at array_at
  array_at-Answers (pos k) =
      Answers-guard (Array.bad_index (length a) (pos k)) _ _ _
        λ good. get_elem?-inside a k d (ground arith)
  array_at-Answers (negsuc k) =
      Answers-guard (Array.bad_index (length a) (negsuc k)) _ _ _ λ good. absurd (ground arith)

  array_at_write-Answers :
      (index : ℤ) (v : A) → Answers (Array.at_write a index v) (array_at_write a index v)
  unfolding Array.at_write array_at_write
  array_at_write-Answers (pos k) v =
      Answers-guard (Array.bad_index (length a) (pos k)) _ _ _
        λ good. let inside : ltb k (length a) ≡ true = ground arith in rw inside refl
  array_at_write-Answers (negsuc k) v =
      Answers-guard (Array.bad_index (length a) (negsuc k)) _ _ _ λ good. absurd (ground arith)

  array_swap-Answers : (i j : ℤ) → Answers (Array.swap d a i j) (array_swap a i j)
  unfolding Array.swap array_swap array_at array_at_write
  array_swap-Answers (pos i) (pos j) =
      Answers-guard (Array.bad_index (length a) (pos i)) _ _ _ λ good_i.
        Answers-guard (Array.bad_index (length a) (pos j)) _ _ _ λ good_j.
          let hi : i < length a = ground arith in
          let hj : j < length a = ground arith in
          let x = get_or a i d in
          let y = get_or a j d in
          let first : ltb i (length a) ≡ true = ground arith in
          let second : ltb j (length (set a i y)) ≡ true = ground (arith, length-set a i y) in
          rw (get_elem?-inside a i d hi)
            (rw (get_elem?-inside a j d hj) (rw first (rw second refl)))
  array_swap-Answers (pos i) (negsuc j) =
      Answers-guard (Array.bad_index (length a) (pos i)) _ _ _ λ good_i.
        Answers-guard (Array.bad_index (length a) (negsuc j)) _ _ _ λ good_j. absurd (ground arith)
  array_swap-Answers (negsuc i) j =
      Answers-guard (Array.bad_index (length a) (negsuc i)) _ _ _ λ good_i. absurd (ground arith)

  -- Reads, writes and swaps of an array that do not panic give the same without the tests.
  pub Array-Answers :
      (i j : ℤ) (v : A)
      → Answers (Array.at d a i) (array_at a i)
        × Answers (Array.at_write a i v) (array_at_write a i v)
        × Answers (Array.swap d a i j) (array_swap a i j)
  Array-Answers i j v = (array_at-Answers i, array_at_write-Answers i v, array_swap-Answers i j)
