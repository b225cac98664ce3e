-- ===== src/Error/Decimal.antt =====
-- What `__jule_push_int_to_str` appends: the digits of the number, and nothing for zero.
use jule.Common.{
  ℕ, zero, suc, ◌+◌, ◌-◌, ◌*◌, ◌/◌, ◌%◌, ◌^◌, ◌≤◌, ◌<◌, ◌≡◌, ◌≢◌, ◌↔◌, refl, some, List, [], ◌∷◌,
  ◌++◌, append-nil, append_assoc, ◌==◌, arith, All, length, take, drop, Bool-cases, inl, inr,
  take-append, drop-append,
}
use jule.Common.Int.{ℤ, pos, negsuc}
use jule.Error.{digit_loop, digit_fuel, push_int_to_str, write_error_index_out_of_range, text}
use native.Mathlib.Nat.{pow-suc}

abbrev pub IsDigit : ℕ → Type 0
IsDigit c = (c - b'0' < 10) × (b'0' ≤ c)

-- The number that a row of digits stands for, behind one that stands for `n`.
abbrev pub value : ℕ → List ℕ → ℕ
value n [] = n
value n (c ∷ ds) = value (n * 10 + (c - b'0')) ds

-- `ds` is the decimal form of `i`, with no zero in front.
abbrev pub Decimal : ℕ → List ℕ → Type 0
Decimal i ds = All IsDigit ds × (value 0 ds ≡ i) × ((i ≡ 0) ↔ (ds ≡ []))

abbrev Appends : ℕ → List ℕ → List ℕ → ℕ → Type 0
Appends fuel front ds i =
    (hs : List ℕ) × (digit_loop fuel (front ++ ds) (length front) i ≡ some (front ++ (hs ++ ds)))
    × All IsDigit hs
    × (value 0 hs ≡ i)
    × ((i ≡ 0) ↔ (hs ≡ []))

value-append :
    (n : ℕ) (hs : List ℕ) (c : ℕ) → value n (hs ++ (c ∷ [])) ≡ value n hs * 10 + (c - b'0')
value-append n [] c = refl
value-append n (h ∷ hs) c = value-append (n * 10 + (h - b'0')) hs c

All-append_one : (hs : List ℕ) (c : ℕ) → All IsDigit hs → IsDigit c → All IsDigit (hs ++ (c ∷ []))
All-append_one [] c h d = (d, tt)
All-append_one (x ∷ hs) c h d = (h.0, All-append_one hs c h.1 d)

append_one_ne : (hs : List ℕ) (c : ℕ) → hs ++ (c ∷ []) ≢ []
append_one_ne [] c e = cc
append_one_ne (x ∷ hs) c e = cc

insert_at_front :
    (front ds : List ℕ) (c : ℕ)
    → take (length front) (front ++ ds) ++ (c ∷ drop (length front) (front ++ ds))
      ≡ front ++ (c ∷ ds)
insert_at_front front ds c = rw (take-append front ds, drop-append front ds)

digit_loop-Appends :
    (fuel : ℕ) (front ds : List ℕ) (i : ℕ) → i < 10 ^ fuel → Appends fuel front ds i
unfolding digit_loop
digit_loop-Appends zero front ds i h =
    ([], ground arith, tt, ground arith, (λ _. refl, λ _. ground arith))
digit_loop-Appends (suc fuel) front ds i h = elim (Bool-cases (i == 0)) [
  | inl stop ↦ ([], rw stop, tt, ground arith, (λ _. refl, λ _. ground arith))
  | inr more ↦
      let c : ℕ = i % 10 + b'0' in
      let (hs, e, digits, v, nil) =
        digit_loop-Appends fuel front (c ∷ ds) (i / 10) (omega (arith, pow-suc 10 fuel)) in
      (
        hs ++ (c ∷ []),
        rw (more, insert_at_front front ds c, append_assoc hs (c ∷ []) ds) e,
        All-append_one hs c digits (omega arith),
        omega (arith, value-append 0 hs c),
        (λ z. absurd (ground arith), λ z. absurd (append_one_ne hs c z)),
      )
]

push_int_to_str_pos :
    (s : List ℕ) (n : ℕ)
    → n < 2 ^ 63
    → (ds : List ℕ) × (push_int_to_str s (pos n) ≡ some (s ++ ds)) × Decimal n ds
unfolding push_int_to_str
push_int_to_str_pos s n h =
    let (ds, e, digits, v, nil) = digit_loop-Appends digit_fuel s [] n (omega arith) in
    (ds, simp append-nil at e, (digits, v, nil))

push_int_to_str_neg :
    (s : List ℕ) (n : ℕ)
    → n < 2 ^ 63
    → (ds : List ℕ) × (push_int_to_str s (negsuc n) ≡ some (s ++ (b'-' ∷ ds))) × Decimal (suc n) ds
unfolding push_int_to_str
push_int_to_str_neg s n h =
    let (ds, e, digits, v, nil) =
      digit_loop-Appends digit_fuel (s ++ (b'-' ∷ [])) [] (suc n) (omega arith) in
    (ds, simp (append-nil, append_assoc) at e, (digits, v, nil))

-- The minus sign of a negative integer.
abbrev pub sign : ℤ → List ℕ
sign (pos n) = []
sign (negsuc n) = b'-' ∷ []

abbrev pub magnitude : ℤ → ℕ
magnitude (pos n) = n
magnitude (negsuc n) = suc n

-- A 64-bit integer other than the least is appended as a minus sign, if it is negative, and the
-- decimal form of its magnitude, which is empty for 0.
pub push_int_to_str_lem :
    (s : List ℕ) (i : ℤ)
    → magnitude i < 2 ^ 63
    → (ds : List ℕ) × (push_int_to_str s i ≡ some (s ++ (sign i ++ ds))) × Decimal (magnitude i) ds
push_int_to_str_lem s (pos n) h = push_int_to_str_pos s n h
push_int_to_str_lem s (negsuc n) h = push_int_to_str_neg s n (omega arith)

-- The text of the index error, for an index from 0 to 2 ^ 63 - 1, holds the index in its decimal
-- form, which is empty for 0, and the length.
index_error_text :
    (to_string : ℕ → List ℕ) (n len : ℕ)
    → n < 2 ^ 63
    → (ds : List ℕ) × (write_error_index_out_of_range to_string [] (pos n) len
        ≡ some (text "index out of range [" ++ (ds ++ (text "] with length " ++ to_string len))))
      × Decimal n ds
unfolding write_error_index_out_of_range
index_error_text to_string n len h =
    let (ds, e, d) = push_int_to_str_pos (text "index out of range [") n h in
    (ds, rw e (simp append_assoc), d)
