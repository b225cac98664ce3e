-- ===== src/Utf16/FromStr.antt =====
-- `utf8_to_runes` and `utf16_from_str`: the loops end on every text, what they give, and the way
-- back through `runes_to_utf8`.
use jule.Common.{
  ℕ, zero, suc, ◌+◌, ◌≤◌, ◌≡◌, refl, ap, ◌∙◌, some, List, [], ◌∷◌, ◌++◌, append-nil, append_assoc,
  length, drop, arith, All, length-append, length-drop, drop-append, inl, inr,
}
use jule.Utf8.{decode_rune_str, runes_to_utf8}
use jule.Utf8.Tables.{rune_error}
use jule.Utf8.Standard.{IsScalar, IsByte, encoding, encodings, length-encoding}
use jule.Utf8.Encode.{IsWritable, runes_to_utf8-encodings, All-IsScalar}
use jule.Utf8.Text.{decode-encoding, decode-Reads}
use jule.Utf16.{to_runes_loop, utf8_to_runes}

All-drop : (n : ℕ) (s : List ℕ) → All IsByte s → All IsByte (drop n s)
All-drop zero s h = h
All-drop (suc n) [] h = h
All-drop (suc n) (b ∷ s) h = All-drop n s h.1

-- One step reads a scalar value and takes a byte at least, and no more than there are.
decode_takes :
    (b : ℕ) (t : List ℕ)
    → All IsByte (b ∷ t)
    → (r : ℕ) × (n : ℕ) × (decode_rune_str (b ∷ t) ≡ (r, n))
      × IsScalar r
      × (1 ≤ n)
      × (n ≤ length (b ∷ t))
decode_takes b t h = elim (decode-Reads b t h) [
  | inl e ↦ (rune_error, 1, e, (omega arith, inr (omega arith)), omega arith, omega arith)
  | inr (r, rest, s, front, e) ↦ (
    r,
    length (encoding r),
    e,
    s,
    (length-encoding r).0,
    omega (arith, ap length front, length-append (encoding r) rest),
  )
]

pub All-append {ℓ} :
    {A : Type ℓ} (P : A → Type 0) (xs ys : List A) → All P xs → All P ys → All P (xs ++ ys)
All-append P [] ys h k = k
All-append P (x ∷ xs) ys h k = (h.0, All-append P xs ys h.1 k)

-- The loop ends with a list of scalar values.
abbrev Reaches : ℕ → List ℕ → List ℕ → Type 0
Reaches fuel s runes =
    (out : List ℕ) × (to_runes_loop fuel s runes ≡ some out)
    × All IsScalar out
    × (length out ≤ length runes + length s)

to_runes_loop_ends :
    (fuel : ℕ) (s runes : List ℕ)
    → length s ≤ fuel
    → All IsByte s
    → All IsScalar runes
    → Reaches fuel s runes
unfolding to_runes_loop
to_runes_loop_ends fuel [] runes h hs hr = (runes, refl, hr, omega arith)
to_runes_loop_ends zero (b ∷ t) runes h hs hr = absurd (omega arith)
to_runes_loop_ends (suc fuel) (b ∷ t) runes h hs hr =
    let (r, n, e, scalar, lo, hi) = decode_takes b t hs in
    let (out, q, good, size) =
      to_runes_loop_ends fuel (drop n (b ∷ t)) (runes ++ (r ∷ []))
        (omega (arith, length-drop n (b ∷ t))) (All-drop n (b ∷ t) hs)
        (All-append IsScalar runes (r ∷ []) hr (scalar, tt)) in
    (
      out,
      rw (e, to_runes_loop) q,
      good,
      omega (arith, length-drop n (b ∷ t), length-append runes (r ∷ [])),
    )

-- `utf8_to_runes` ends on every text of bytes, and gives scalar values, no more of them than
-- bytes.
pub utf8_to_runes_total :
    (s : List ℕ)
    → All IsByte s
    → (out : List ℕ) × (utf8_to_runes s ≡ some out) × All IsScalar out × (length out ≤ length s)
unfolding utf8_to_runes
utf8_to_runes_total s h =
    let (out, q, good, size) = to_runes_loop_ends (length s) s [] (omega arith) h tt in
    (out, q, good, omega arith)

-- A round of the loop on a text that begins with an encoding.
to_runes_loop_step :
    (fuel : ℕ) (s runes rest : List ℕ) (r : ℕ)
    → IsScalar r
    → s ≡ encoding r ++ rest
    → to_runes_loop (suc fuel) s runes ≡ to_runes_loop fuel rest (runes ++ (r ∷ []))
unfolding to_runes_loop
to_runes_loop_step fuel [] runes rest r h e =
    absurd (omega (arith, ap length e, length-append (encoding r) rest, length-encoding r))
to_runes_loop_step fuel (b ∷ t) runes rest r h e =
    let front : decode_rune_str (b ∷ t) ≡ (r, length (encoding r)) =
      rw e (decode-encoding r rest h) in
    rw (front, to_runes_loop, e, drop-append (encoding r) rest)

to_runes_loop-encodings :
    (rs : List ℕ) (fuel : ℕ) (runes : List ℕ)
    → All IsScalar rs
    → length (encodings rs) ≤ fuel
    → to_runes_loop fuel (encodings rs) runes ≡ some (runes ++ rs)
to_runes_loop-encodings [] fuel runes h e = rw append-nil (unfold to_runes_loop in refl)
to_runes_loop-encodings (r ∷ rs) zero runes h e =
    absurd (omega (arith, length-append (encoding r) (encodings rs), length-encoding r))
to_runes_loop-encodings (r ∷ rs) (suc fuel) runes h e =
    to_runes_loop_step fuel _ runes (encodings rs) r h.0 refl
    ∙ to_runes_loop-encodings rs fuel (runes ++ (r ∷ [])) h.1
        (omega (arith, length-append (encoding r) (encodings rs), length-encoding r))
    ∙ ap some (append_assoc runes (r ∷ []) rs)

-- The encodings of scalar values, in sequence, are read back as those values.
pub utf8_to_runes-encodings :
    (rs : List ℕ) → All IsScalar rs → utf8_to_runes (encodings rs) ≡ some rs
unfolding utf8_to_runes
utf8_to_runes-encodings rs h = to_runes_loop-encodings rs _ [] h (omega arith)

-- Scalar values other than U+07FF, written as UTF-8, are read again as they were.
pub utf8_to_runes-runes_to_utf8 :
    (rs : List ℕ) → All IsWritable rs → utf8_to_runes (runes_to_utf8 rs) ≡ some rs
utf8_to_runes-runes_to_utf8 rs h =
    rw (runes_to_utf8-encodings rs h) (utf8_to_runes-encodings rs (All-IsScalar rs h))
