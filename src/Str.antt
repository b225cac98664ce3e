-- ===== src/Str.antt =====
-- api/str.hpp: the built-in `str`. A value is its buffer, the list of its bytes; the capacity of a
-- `std::basic_string` is the library's and shows in no result here. An operation that hands out a
-- reference to a byte is modelled by the read and by the write through it.
pub mod Slicing
pub mod Runes
pub mod Order
pub mod Bytes
use jule.Common.{
  ℕ, zero, suc, ◌+◌, ◌-◌, Bool, true, false, not, ◌&&◌, ◌||◌, Option, none, some, List, [], ◌∷◌,
  ◌++◌, ltb, leb, ◌==◌, if◌then◌else◌, length, get_or, set, take, drop, replicate,
}
use jule.Common.Int.{ℤ, pos, negsuc, pos_part, lt_int, le_int}
use jule.Panic.{
  Outcome, ok, panic, negative_length, negative_capacity, length_over_capacity, index_out_of_range,
  slicing_out_of_range, ◌>>=◌,
}
use jule.Utf8.{decode_rune_str, push_rune_bytes}

abbrev pub Str : Type 0
Str = List ℕ

-- `Str::alloc(len)`
pub alloc : ℤ → Outcome Str
alloc len = if lt_int len (pos 0) then panic negative_length else ok (replicate (pos_part len) 0)

-- `Str::alloc(len, cap)`
pub alloc_cap : ℤ → ℤ → Outcome Str
alloc_cap len cap =
    if lt_int len (pos 0)
    then panic negative_length
    else if lt_int cap (pos 0)
    then panic negative_capacity
    else if lt_int cap len
    then panic length_over_capacity
    else ok (replicate (pos_part len) 0)

-- `Str(rune)`
pub from_rune : ℕ → Str
from_rune rune = push_rune_bytes rune []

-- The loop over a slice of runes in `Str(src)` and in `append(s)`.
append_runes : List ℕ → Str → Str
append_runes [] buffer = buffer
append_runes (r ∷ src) buffer = append_runes src (push_rune_bytes r buffer)

-- `Str(src)` for a slice of runes.
pub from_runes : List ℕ → Str
unfolding append_runes
from_runes src = append_runes src []

-- `append(r)`, for a rune.
pub append_rune : Str → ℕ → Str
append_rune s r = push_rune_bytes r s

-- `append(s)`, for a slice of bytes, and `append(s, n)`.
pub append_bytes : Str → List ℕ → Str
append_bytes s t = s ++ t

-- The guard of `slice` and `mut_slice`.
abbrev pub out_of_range : ℤ → ℤ → ℕ → Bool
out_of_range start end len =
    lt_int start (pos 0) || (lt_int end (pos 0) || (lt_int end start || lt_int (pos len) end))

-- `mut_slice(start, end)`, the string after it.
unfoldable pub mut_slice : Str → ℤ → ℤ → Outcome Str
mut_slice s start end =
    if out_of_range start end (length s)
    then panic (slicing_out_of_range start end (length s))
    else if pos_part start == pos_part end
    then ok []
    else (let erased = drop (pos_part start) s in ok (take (pos_part end - pos_part start) erased))

-- `mut_slice(start)`
pub mut_slice_from : Str → ℤ → Outcome Str
mut_slice_from s start = mut_slice s start (pos (length s))

-- `mut_slice()`
pub mut_slice_all : Str → Outcome Str
mut_slice_all s = mut_slice s (pos 0) (pos (length s))

-- `slice(start, end)`
unfoldable pub slice : Str → ℤ → ℤ → Outcome Str
slice s start end =
    if out_of_range start end (length s)
    then panic (slicing_out_of_range start end (length s))
    else if pos_part start == pos_part end
    then ok []
    else ok (take (pos_part end - pos_part start) (drop (pos_part start) s))

-- `slice(start)`
pub slice_from : Str → ℤ → Outcome Str
slice_from s start = slice s start (pos (length s))

-- `slice()`
pub slice_all : Str → Outcome Str
slice_all s = slice s (pos 0) (pos (length s))

pub empty : Str → Bool
empty s = length s == 0

abbrev pub bad_index : Str → ℤ → Bool
bad_index s index = length s == 0 || (lt_int index (pos 0) || le_int (pos (length s)) index)

-- A read of `at(index)`, which is `operator[]`.
unfoldable pub at : Str → ℤ → Outcome ℕ
at s index =
    if bad_index s index
    then panic (index_out_of_range index (length s))
    else ok (get_or s (pos_part index) 0)

-- A write through `at(index)`.
unfoldable pub at_write : Str → ℤ → ℕ → Outcome Str
at_write s index v =
    if bad_index s index
    then panic (index_out_of_range index (length s))
    else ok (set s (pos_part index) v)

-- The loop of `operator jule::Slice<jule::I32>` on the bytes from `index` on; `none` means that
-- the fuel ran out.
unfoldable pub runes_loop : ℕ → Str → List ℕ → Option (List ℕ)
runes_loop fuel [] runes = some runes
runes_loop zero (b ∷ s) runes = none
runes_loop (suc fuel) (b ∷ s) runes =
    let (rune, n) = decode_rune_str (b ∷ s) in
    runes_loop fuel (drop n (b ∷ s)) (runes ++ (rune ∷ []))

-- `operator jule::Slice<jule::I32>`. Each round takes a byte at least.
unfoldable pub runes : Str → Option (List ℕ)
unfolding runes_loop
runes s = runes_loop (length s) s []

-- `operator+=` and `operator+`
pub concat : Str → Str → Str
concat s t = s ++ t

-- `operator==`
pub equal : Str → Str → Bool
equal [] [] = true
equal [] (c ∷ t) = false
equal (b ∷ s) [] = false
equal (b ∷ s) (c ∷ t) = b == c && equal s t

-- `for (i = 0; i < n; ++i) if (thisr[i] != strr[i]) return thisr[i] < strr[i];`, and what is
-- returned behind the loop. Runes are scalar values (`Runes`), so `<` of `I32`s is `<` of numbers.
unfoldable pub first_difference : (ℕ → ℕ → Bool) → ℕ → List ℕ → List ℕ → Bool → Bool
first_difference less zero thisr strr behind = behind
first_difference less (suc n) (x ∷ thisr) (y ∷ strr) behind =
    if x == y then first_difference less n thisr strr behind else less x y
first_difference less (suc n) _ _ behind = behind

unfoldable pub compare_runes : (ℕ → ℕ → Bool) → List ℕ → List ℕ → Bool
compare_runes less thisr strr =
    let n = if ltb (length strr) (length thisr) then length strr else length thisr in
    first_difference less n thisr strr (less (length thisr) (length strr))

abbrev both : (List ℕ → List ℕ → Bool) → Option (List ℕ) → Option (List ℕ) → Option Bool
both f (some a) (some b) = some (f a b)
both f (some a) none = none
both f none b = none

-- `operator<` and `operator>`
unfoldable pub less : Str → Str → Option Bool
less s t = both (compare_runes ltb) (runes s) (runes t)

pub greater : Str → Str → Option Bool
greater s t = both (compare_runes (λ x y. ltb y x)) (runes s) (runes t)

abbrev or_else : Bool → Option Bool → Option Bool
or_else true r = some true
or_else false r = r

-- `operator<=` and `operator>=`
pub less_equal : Str → Str → Option Bool
less_equal s t = or_else (equal s t) (less s t)

pub greater_equal : Str → Str → Option Bool
greater_equal s t = or_else (equal s t) (greater s t)

-- `operator!=`, and `len`
pub not_equal : Str → Str → Bool
unfolding equal
not_equal s t = not (equal s t)

pub len : Str → ℕ
len s = length s

-- `Str(src)` of a list of bytes or of a `std::string`, and the conversions to one.
pub from_bytes : List ℕ → Str
from_bytes src = src

pub to_bytes : Str → List ℕ
to_bytes s = s
