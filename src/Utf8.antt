-- ===== src/Utf8.antt =====
-- api/utf8.hpp: UTF-8 text for Jule strings. A text is its list of bytes; an `I32` is its bit
-- pattern, a number below 2 ^ 32, so that `static_cast<jule::U32>` is the identity.
pub mod Tables
pub mod Standard
pub mod Encode
pub mod Decode
pub mod Leads
pub mod Text
pub mod RoundTrip
use jule.Common.{
  ℕ, suc, ◌+◌, ◌-◌, ◌*◌, ◌/◌, ◌%◌, ◌^◌, bit_and, bit_or, Bool, ◌&&◌, ◌||◌, List, [], ◌∷◌, ◌++◌, ltb,
  leb, ◌==◌, if◌then◌else◌, length, get_or,
}
use Tables.{
  AcceptRange, utf8_first, utf8_accept_range, rune_error, maskx, mask2, mask3, mask4, locb, hicb,
  utf8_as, rune1_max, rune2_max, rune3_max, tx, t2, t3, t4, max_rune, surrogate_min, surrogate_max,
}

-- `static_cast<jule::I32>(c)` of a `char`, which is signed: the sign bit is extended.
abbrev char_to_i32 : ℕ → ℕ
char_to_i32 c = if ltb c 128 then c else c + (2 ^ 32 - 256)

-- `x << 31 >> 31` on an `I32`: all bits are the lowest bit of `x`.
abbrev spread_low_bit : ℕ → ℕ
spread_low_bit x = if ltb (x * 2 ^ 31 % 2 ^ 32) (2 ^ 31) then 0 else 2 ^ 32 - 1

abbrev complement : ℕ → ℕ
complement x = 2 ^ 32 - 1 - x

-- `utf8_decode_rune_str(s, len)` on the text that holds exactly `len` bytes.
unfoldable pub decode_rune_str : List ℕ → ℕ × ℕ
decode_rune_str s =
    if length s == 0
    then (rune_error, 0)
    else let s0 = get_or s 0 0 in
      let x = utf8_first s0 in
      if leb utf8_as x
      then (let mask = spread_low_bit x in
          (bit_or (bit_and (char_to_i32 s0) (complement mask)) (bit_and rune_error mask), 1))
      else let sz = bit_and x 7 in
        let accept : AcceptRange = utf8_accept_range (x / 16) in
        if ltb (length s) sz
        then (rune_error, 1)
        else let s1 = get_or s 1 0 in
          if ltb s1 accept.lo || ltb accept.hi s1
          then (rune_error, 1)
          else if leb sz 2
          then (bit_or (bit_and s0 mask2 * 2 ^ 6) (bit_and s1 maskx), 2)
          else let s2 = get_or s 2 0 in
            if ltb s2 locb || ltb hicb s2
            then (rune_error, 1)
            else if leb sz 3
            then (
              bit_or (bit_or (bit_and s0 mask3 * 2 ^ 12) (bit_and s1 maskx * 2 ^ 6))
                  (bit_and s2 maskx),
              3,
            )
            else let s3 = get_or s 3 0 in
              if ltb s3 locb || ltb hicb s3 then (rune_error, 1) else (
                bit_or
                    (bit_or (bit_or (bit_and s0 mask4 * 2 ^ 18) (bit_and s1 maskx * 2 ^ 12))
                      (bit_and s2 maskx * 2 ^ 6))
                    (bit_and s3 maskx),
                4,
              )

-- `static_cast<jule::U8>`
abbrev to_u8 : ℕ → ℕ
to_u8 x = x % 256

-- The byte with the low six bits of `x`, as the source writes it.
abbrev continuation : ℕ → ℕ
continuation x = to_u8 (bit_or tx (bit_and (to_u8 x) maskx))

-- The writes of `utf8_push_rune_bytes` for a rune of three or four bytes. `i` is the rune as a
-- `U32` and `r'` is what `_r` holds: the source tests the one and writes the other.
push_long : ℕ → ℕ → List ℕ → List ℕ
push_long i r' dest =
    if leb i rune3_max
    then dest
      ++ (to_u8 (bit_or t3 (to_u8 (r' / 2 ^ 12)))
          ∷ continuation (r' / 2 ^ 6)
          ∷ continuation r'
          ∷ [])
    else dest
      ++ (to_u8 (bit_or t4 (to_u8 (r' / 2 ^ 18)))
          ∷ continuation (r' / 2 ^ 12)
          ∷ continuation (r' / 2 ^ 6)
          ∷ continuation r'
          ∷ [])

-- `utf8_push_rune_bytes(r, dest)`
unfoldable pub push_rune_bytes : ℕ → List ℕ → List ℕ
unfolding push_long
push_rune_bytes r dest =
    if leb r rune1_max
    then dest ++ (to_u8 r ∷ [])
    else if ltb r rune2_max
    then dest ++ (to_u8 (bit_or t2 (to_u8 (r / 2 ^ 6))) ∷ continuation r ∷ [])
    else let r' =
        if ltb max_rune r || (leb surrogate_min r && leb r surrogate_max) then rune_error else r in
      push_long r r' dest

-- The loop of `runes_to_utf8`, with the buffer so far.
unfoldable pub runes_to_utf8_loop : List ℕ → List ℕ → List ℕ
runes_to_utf8_loop [] buffer = buffer
runes_to_utf8_loop (r ∷ s) buffer = runes_to_utf8_loop s (push_rune_bytes r buffer)

unfoldable pub runes_to_utf8 : List ℕ → List ℕ
unfolding runes_to_utf8_loop
runes_to_utf8 s = runes_to_utf8_loop s []
