-- ===== src/Error.antt =====
-- api/error.hpp: the decimal form of an integer in a panic's text, and the texts of the index errors.
-- A text is its list of bytes.
pub mod Decimal
use jule.Common.{
  ℕ, zero, suc, ◌+◌, ◌/◌, ◌%◌, ◌^◌, Option, none, some, List, [], ◌∷◌, ◌++◌, ◌==◌, if◌then◌else◌,
  length, take, drop,
}
use Prim.Native.Char.{code}
use Prim.Native.String.{String}
use jule.Common.Int.{ℤ, pos, negsuc}

-- `s.insert(s.begin() + len, c)`
abbrev insert_at : List ℕ → ℕ → ℕ → List ℕ
insert_at s len c = take len s ++ (c ∷ drop len s)

-- `for (; i > 0; i /= 10) s.insert(...)`; `none` means that the fuel ran out.
digit_loop : ℕ → List ℕ → ℕ → ℕ → Option (List ℕ)
digit_loop zero s len i = if i == 0 then some s else none
digit_loop (suc fuel) s len i =
    let rest = digit_loop fuel (insert_at s len (i % 10 + b'0')) len (i / 10) in
    if i == 0 then some s else rest

-- A `jule::Int` has 64 bits, so 20 digits at most.
abbrev digit_fuel : ℕ
digit_fuel = 20

-- `__jule_push_int_to_str(s, i)`
pub push_int_to_str : List ℕ → ℤ → Option (List ℕ)
push_int_to_str s (pos n) = digit_loop digit_fuel s (length s) n
push_int_to_str s (negsuc n) =
    let s' = s ++ (b'-' ∷ []) in digit_loop digit_fuel s' (length s') (suc n)

-- A text of the source as its bytes.
abbrev pub text : String → List ℕ
text String.[] = []
text (String.◌∷◌ c s) = code c ∷ text s

infixl 5 ◌>>=◌
abbrev ◌>>=◌ : Option (List ℕ) → (List ℕ → Option (List ℕ)) → Option (List ℕ)
none >>= f = none
some a >>= f = f a

-- `__JULE_WRITE_ERROR_INDEX_OUT_OF_RANGE(STR, INDEX, LEN)`; `to_string` is `std::to_string`.
pub write_error_index_out_of_range : (ℕ → List ℕ) → List ℕ → ℤ → ℕ → Option (List ℕ)
write_error_index_out_of_range to_string str index len =
    push_int_to_str (str ++ text "index out of range [") index >>= λ s.
    some ((s ++ text "] with length ") ++ to_string len)

-- `__JULE_WRITE_ERROR_SLICING_INDEX_OUT_OF_RANGE(STR, START, END, LEN)`
pub write_error_slicing_index_out_of_range : (ℕ → List ℕ) → List ℕ → ℤ → ℤ → ℕ → Option (List ℕ)
write_error_slicing_index_out_of_range to_string str start end len =
    push_int_to_str (str ++ text "index out of range [") start >>= λ s.
    push_int_to_str (s ++ text ":") end >>= λ s.
    some ((s ++ text "] with length ") ++ to_string len)
