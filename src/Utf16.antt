-- ===== src/Utf16.antt =====
-- api/utf16.hpp: UTF-16 text. A `std::vector<U16>` is its list of units, a `std::vector<I32>` the
-- list of the bit patterns of its runes. A write past the end of a vector is `none`.
pub mod Pairs
pub mod Encode
pub mod Decode
pub mod ToStr
pub mod Standard
pub mod Trip
pub mod FromStr
pub mod NullEnd
use jule.Common.{
  ℕ, zero, suc, ◌+◌, ◌-◌, ◌*◌, ◌/◌, ◌%◌, ◌^◌, bit_and, bit_or, Bool, true, false, not, ◌&&◌, ◌||◌,
  Option, none, some, List, [], ◌∷◌, ◌++◌, ltb, leb, ◌==◌, if◌then◌else◌, length, map, set, take,
  drop, replicate,
}
use jule.Utf8.{decode_rune_str, runes_to_utf8}

abbrev pub replacement_char : ℕ
replacement_char = 65533

abbrev pub surr1 : ℕ
surr1 = 0xd800

abbrev pub surr2 : ℕ
surr2 = 0xdc00

abbrev pub surr3 : ℕ
surr3 = 0xe000

abbrev pub surr_self : ℕ
surr_self = 0x10000

abbrev pub max_rune : ℕ
max_rune = 1114111

-- `<` of two `I32`s on their bit patterns.
abbrev pub lt_i32 : ℕ → ℕ → Bool
lt_i32 a b = ltb ((a + 2 ^ 31) % 2 ^ 32) ((b + 2 ^ 31) % 2 ^ 32)

abbrev pub le_i32 : ℕ → ℕ → Bool
le_i32 a b = not (lt_i32 b a)

abbrev pub sub_i32 : ℕ → ℕ → ℕ
sub_i32 a b = (a + 2 ^ 32 - b) % 2 ^ 32

abbrev pub add_i32 : ℕ → ℕ → ℕ
add_i32 a b = (a + b) % 2 ^ 32

-- `utf16_decode_rune(r1, r2)`
pub decode_rune : ℕ → ℕ → ℕ
decode_rune r1 r2 =
    if le_i32 surr1 r1 && (lt_i32 r1 surr2 && (le_i32 surr2 r2 && lt_i32 r2 surr3))
    then bit_or (sub_i32 r1 surr1 * 2 ^ 10 % 2 ^ 32) (add_i32 (sub_i32 r2 surr2) surr_self)
    else replacement_char

-- `a[n] = v`
abbrev pub write : List ℕ → ℕ → ℕ → Option (List ℕ)
write a n v = if ltb n (length a) then some (set a n v) else none

infixl 5 ◌>>=◌
abbrev pub ◌>>=◌ : {A B : Type 0} → Option A → (A → Option B) → Option B
none >>= f = none
some a >>= f = f a

abbrev pub to_u16 : ℕ → ℕ
to_u16 v = v % 2 ^ 16

-- The test of `utf16_decode` for a unit `r` that a unit `q` follows.
abbrev pub is_pair : ℕ → ℕ → Bool
is_pair r q = ltb r surr2 && (leb surr2 q && ltb q surr3)

abbrev pub is_plain : ℕ → Bool
is_plain r = ltb r surr1 || leb surr3 r

-- The rune for a unit that forms no pair with the next one.
abbrev pub lone : ℕ → ℕ
lone r = if is_plain r then r else replacement_char

-- The loop of `utf16_decode` on the units from `i` on, with the vector and the runes written. It
-- ends in `a.resize(n)`.
decode_loop : List ℕ → List ℕ → ℕ → Option (List ℕ)
decode_loop [] a n = some (take n a)
decode_loop (r ∷ []) a n = write a n (lone r) >>= λ a'. some (take (n + 1) a')
decode_loop (r ∷ q ∷ s) a n =
    let single = write a n (lone r) >>= λ a'. decode_loop (q ∷ s) a' (n + 1) in
    let pair = write a n (decode_rune r q) >>= λ a'. decode_loop s a' (n + 1) in
    if not (is_plain r) && is_pair r q then pair else single

-- `utf16_decode(s)`
pub utf16_decode : List ℕ → Option (List ℕ)
unfolding decode_loop
utf16_decode s = decode_loop s (replicate (length s) 0) 0

-- The loop of `utf8_to_runes` on the bytes from `index` on; `none` means that the fuel ran out.
unfoldable pub to_runes_loop : ℕ → List ℕ → List ℕ → Option (List ℕ)
to_runes_loop fuel [] runes = some runes
to_runes_loop zero (b ∷ s) runes = none
to_runes_loop (suc fuel) (b ∷ s) runes =
    let (rune, n) = decode_rune_str (b ∷ s) in
    to_runes_loop fuel (drop n (b ∷ s)) (runes ++ (rune ∷ []))

-- `utf8_to_runes(s)`. Each round takes a byte at least, so `length s` rounds are enough.
unfoldable pub utf8_to_runes : List ℕ → Option (List ℕ)
unfolding to_runes_loop
utf8_to_runes s = to_runes_loop (length s) s []

-- `utf16_to_utf8_str(wstr, len)`, each `wchar_t` cut to a `U16` first.
pub utf16_to_utf8_str : List ℕ → Option (List ℕ)
utf16_to_utf8_str wstr = utf16_decode (map to_u16 wstr) >>= λ runes. some (runes_to_utf8 runes)

-- `utf16_encode_rune(r)`
pub encode_rune : ℕ → ℕ × ℕ
encode_rune r =
    if lt_i32 r surr_self || lt_i32 max_rune r
    then (replacement_char, replacement_char)
    else let v = sub_i32 r surr_self in
      (surr1 + bit_and (v / 2 ^ 10) 0x3ff, surr2 + bit_and v 0x3ff)

-- The first loop of `utf16_encode`: the size of the vector.
unit_count : List ℕ → ℕ → ℕ
unit_count [] n = n
unit_count (v ∷ runes) n = unit_count runes (if le_i32 surr_self v then n + 1 else n)

abbrev pub is_normal : ℕ → Bool
is_normal v = (le_i32 0 v && lt_i32 v surr1) || (le_i32 surr3 v && lt_i32 v surr_self)

abbrev pub needs_pair : ℕ → Bool
needs_pair v = le_i32 surr_self v && le_i32 v max_rune

-- The second loop of `utf16_encode`, with the vector and the units written, and `a.resize(n)`.
encode_loop : List ℕ → List ℕ → ℕ → Option (List ℕ)
encode_loop [] a n = some (take n a)
encode_loop (v ∷ runes) a n =
    let normal = write a n (to_u16 v) >>= λ a'. encode_loop runes a' (n + 1) in
    let pair = write a n (to_u16 (encode_rune v).0) >>= λ b.
    write b (n + 1) (to_u16 (encode_rune v).1) >>= λ a'. encode_loop runes a' (n + 2) in
    let other = write a n (to_u16 replacement_char) >>= λ a'. encode_loop runes a' (n + 1) in
    if is_normal v then normal else if needs_pair v then pair else other

-- `utf16_encode(runes)`
pub utf16_encode : List ℕ → Option (List ℕ)
unfolding encode_loop unit_count
utf16_encode runes = encode_loop runes (replicate (unit_count runes (length runes)) 0) 0

-- `utf16_append_rune(a, r)`
pub append_rune : List ℕ → ℕ → List ℕ
append_rune a r =
    if is_normal r
    then a ++ (to_u16 r ∷ [])
    else if needs_pair r
    then (a ++ (to_u16 (encode_rune r).0 ∷ [])) ++ (to_u16 (encode_rune r).1 ∷ [])
    else a ++ (replacement_char ∷ [])

-- The loop of `utf16_from_str` over the runes, with its `break` at a zero, and the final zero.
append_until_zero : List ℕ → List ℕ → List ℕ
append_until_zero [] buff = append_rune buff 0
append_until_zero (r ∷ runes) buff =
    let rest = append_until_zero runes (append_rune buff r) in
    if r == 0 then append_rune buff 0 else rest

-- `utf16_from_str(s)`
pub utf16_from_str : List ℕ → Option (List ℕ)
unfolding append_until_zero
utf16_from_str s = utf8_to_runes s >>= λ runes. some (append_until_zero runes [])
