-- ===== src/Utf16/Decode.antt =====
-- `utf16_decode` against a plain recursion, and UTF-16 text encoded and decoded again.
use jule.Common.{
  ℕ, zero, suc, ◌+◌, ◌-◌, ◌/◌, ◌%◌, ◌≤◌, ◌<◌, ◌≡◌, refl, ap, ◌∙◌, true, not, ◌&&◌, some, List, [],
  ◌∷◌, ◌++◌, map, append-nil, append_assoc, ltb, ◌==◌, if◌then◌else◌, length, replicate, arith, All,
  length-append, take-append, lt→ltb, le→ltb, ◌⊎◌, inl, inr, Bool-cases,
}
use native.Mathlib.Decide.{dec_lt}
use jule.Utf8.Standard.{IsScalar}
use jule.Utf16.{
  write, ◌>>=◌, decode_loop, utf16_decode, utf16_encode, append_rune, encode_rune, decode_rune,
  lone, is_plain, is_pair, to_u16,
}
use jule.Utf16.Pairs.{encode_rune_halves, decode-encode_rune}
use jule.Utf16.Encode.{write_next, append_all, utf16_encode-append_all}

-- The runes of a list of units: a pair of surrogates is one rune, a lone one is U+FFFD.
unfoldable pub decoded : List ℕ → List ℕ
decoded [] = []
decoded (r ∷ []) = lone r ∷ []
decoded (r ∷ q ∷ s) =
    let single = lone r ∷ decoded (q ∷ s) in
    let pair = decode_rune r q ∷ decoded s in
    if not (is_plain r) && is_pair r q then pair else single

abbrev Next : List ℕ → Type 0
Next s =
    (out : List ℕ) (m n : ℕ)
    → n ≡ length out
    → length s ≤ m
    → decode_loop s (out ++ replicate m 0) n ≡ some (out ++ decoded s)

-- One write of `v`, and then the rest.
step :
    (v : ℕ) (s out : List ℕ) (m n : ℕ)
    → Next s
    → n ≡ length out
    → length s ≤ m
    → (write (out ++ replicate (suc m) 0) n v >>= λ a'. decode_loop s a' (n + 1))
      ≡ some (out ++ (v ∷ decoded s))
step v s out m n next e h = rw (write_next out m n v e) (
    next (out ++ (v ∷ [])) m (n + 1) (omega (arith, e, length-append out (v ∷ []))) h
    ∙ rw (append_assoc out (v ∷ []) (decoded s)))

decode_loop-decoded : (s : List ℕ) → Next s
unfolding decode_loop decoded
decode_loop-decoded [] out m n e h = rw (e, take-append out (replicate m 0), append-nil out)
decode_loop-decoded (r ∷ []) out zero n e h = absurd (omega arith)
decode_loop-decoded (r ∷ []) out (suc m) n e h =
    step (lone r) [] out m n (decode_loop-decoded []) e (omega arith)
decode_loop-decoded (r ∷ q ∷ s) out zero n e h = absurd (omega arith)
decode_loop-decoded (r ∷ q ∷ s) out (suc m) n e h =
    elim (Bool-cases (not (is_plain r) && is_pair r q)) [
      | inl pair ↦
          rw pair (step (decode_rune r q) s out m n (decode_loop-decoded s) e (omega arith))
      | inr single ↦
          rw single (step (lone r) (q ∷ s) out m n (decode_loop-decoded (q ∷ s)) e (omega arith))
    ]

-- `utf16_decode` never writes past its vector, and gives for every list of units what a recursion
-- from left to right gives: a surrogate pair becomes the rune of its pair, another surrogate the
-- replacement character, any other unit itself.
pub utf16_decode-decoded : (s : List ℕ) → utf16_decode s ≡ some (decoded s)
unfolding utf16_decode
utf16_decode-decoded s = decode_loop-decoded s [] (length s) 0 refl (omega arith)

-- What becomes of a rune that is encoded and decoded.
abbrev pub after_trip : ℕ → ℕ
after_trip r = if ltb r 0x10000 then r else if r / 0x10000 % 2 == 1 then r else r - 0x10000

-- The units of one rune.
abbrev pub units : ℕ → List ℕ
units r = append_rune [] r

pub append_rune-units : (out : List ℕ) (r : ℕ) → append_rune out r ≡ out ++ units r
unfolding append_rune
append_rune-units out r =
    ground (arith, append_assoc out (to_u16 (encode_rune r).0 ∷ []) (to_u16 (encode_rune r).1 ∷ []))

pub units_short : (r : ℕ) → r < 0x10000 → (r < 0xD800) ⊎ (0xE000 ≤ r) → units r ≡ r ∷ []
unfolding append_rune
units_short r short gap = ground arith

pub units_long :
    (r : ℕ) → 0x10000 ≤ r → r < 0x110000 → units r ≡ (encode_rune r).0 ∷ (encode_rune r).1 ∷ []
unfolding append_rune
units_long r lo hi = rw (encode_rune_halves r lo hi) (ground arith)

decoded_plain : (r : ℕ) (s : List ℕ) → is_plain r ≡ true → decoded (r ∷ s) ≡ r ∷ decoded s
unfolding decoded
decoded_plain r [] h = rw h
decoded_plain r (q ∷ s) h = rw h

-- The two units of a long rune form a pair for `utf16_decode`.
pair_found :
    (r : ℕ)
    → 0x10000 ≤ r
    → r < 0x110000
    → (not (is_plain (encode_rune r).0) && is_pair (encode_rune r).0 (encode_rune r).1) ≡ true
pair_found r lo hi = rw (encode_rune_halves r lo hi) (ground arith)

decoded-units :
    (r : ℕ) (s : List ℕ) → IsScalar r → decoded (units r ++ s) ≡ after_trip r ∷ decoded s
unfolding decoded
decoded-units r s (fits, gap) = elim (dec_lt r 0x10000) [
  | yes short ↦
      rw (units_short r short gap, lt→ltb r 0x10000 short) (decoded_plain r s (ground arith))
  | no long ↦ rw (
    units_long r (omega arith) fits,
    pair_found r (omega arith) fits,
    decode-encode_rune r (omega arith) fits,
    le→ltb r 0x10000 (omega arith),
  )
]

pub append_all-decoded :
    (runes out : List ℕ) (start : List ℕ)
    → All IsScalar runes
    → ((t : List ℕ) → decoded (out ++ t) ≡ start ++ decoded t)
    → decoded (append_all out runes) ≡ start ++ map after_trip runes
unfolding append_all decoded
append_all-decoded [] out start h front = rw (← append-nil out) (front [] ∙ rw append-nil)
append_all-decoded (r ∷ runes) out start (h, hs) front =
    append_all-decoded runes (append_rune out r) (start ++ (after_trip r ∷ [])) hs (λ t.
      rw (append_rune-units out r, append_assoc out (units r) t)
        (front (units r ++ t)
          ∙ rw (decoded-units r t h, append_assoc start (after_trip r ∷ []) (decoded t))))
    ∙ append_assoc start (after_trip r ∷ []) (map after_trip runes)

-- Scalar values that are encoded and then decoded come back in number and order: those below
-- 0x10000 and those in an odd plane as they were, the others 0x10000 too small.
pub utf16_decode-utf16_encode :
    (runes : List ℕ)
    → All IsScalar runes
    → (utf16_encode runes >>= utf16_decode) ≡ some (map after_trip runes)
utf16_decode-utf16_encode runes h =
    rw (utf16_encode-append_all runes, utf16_decode-decoded (append_all [] runes))
      (ap some (append_all-decoded runes [] [] h (λ t. refl)))
