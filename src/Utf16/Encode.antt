-- ===== src/Utf16/Encode.antt =====
-- `utf16_encode` writes inside its vector, and what it writes is what `utf16_append_rune` appends.
use jule.Common.{
  ℕ, zero, suc, ◌+◌, ◌≤◌, ◌≡◌, refl, ap, true, some, List, [], ◌∷◌, ◌++◌, append_assoc,
  if◌then◌else◌, length, set, replicate, arith, length-append, take-append, inl, inr, Bool-cases,
}
use jule.Utf16.{
  write, encode_loop, unit_count, utf16_encode, append_rune, encode_rune, le_i32, surr_self,
  is_normal, needs_pair, to_u16, replacement_char,
}

pub set-append {ℓ} :
    {A : Type ℓ} (out : List A) (x v : A) (t : List A)
    → set (out ++ (x ∷ t)) (length out) v ≡ out ++ (v ∷ t)
set-append [] x v t = refl
set-append (y ∷ out) x v t = ap (λ l. y ∷ l) (set-append out x v t)

-- A write at the end of what is written, while the vector has room.
pub write_next :
    (out : List ℕ) (m n v : ℕ)
    → n ≡ length out
    → write (out ++ replicate (suc m) 0) n v ≡ some ((out ++ (v ∷ [])) ++ replicate m 0)
write_next out m n v e =
    rw (e, set-append out 0 v (replicate m 0), append_assoc out (v ∷ []) (replicate m 0))
      (ground (arith, length-append out (0 ∷ replicate m 0)))

-- The buffer after `utf16_append_rune` on each rune.
unfoldable pub append_all : List ℕ → List ℕ → List ℕ
append_all out [] = out
append_all out (r ∷ runes) = append_all (append_rune out r) runes

-- The size that `utf16_encode` allows for.
room : List ℕ → ℕ
room [] = 0
room (v ∷ runes) = (if le_i32 surr_self v then 2 else 1) + room runes

unit_count-room : (runes : List ℕ) (n : ℕ) → unit_count runes n + length runes ≡ room runes + n
unfolding unit_count room
unit_count-room [] n = omega arith
unit_count-room (v ∷ runes) n =
    ground (arith, unit_count-room runes n, unit_count-room runes (n + 1))

room_pair :
    (v m : ℕ) (runes : List ℕ)
    → needs_pair v ≡ true
    → room (v ∷ runes) ≤ suc m
    → (k : ℕ) × (m ≡ suc k) × (room runes ≤ k)
unfolding room
room_pair v zero runes b h = absurd (ground arith)
room_pair v (suc k) runes b h = (k, refl, ground arith)

room_next : (v m : ℕ) (runes : List ℕ) → room (v ∷ runes) ≤ suc m → room runes ≤ m
unfolding room
room_next v m runes h = ground arith

encode_loop-append_all :
    (runes out : List ℕ) (m n : ℕ)
    → n ≡ length out
    → room runes ≤ m
    → encode_loop runes (out ++ replicate m 0) n ≡ some (append_all out runes)
unfolding encode_loop append_all append_rune
encode_loop-append_all [] out m n e h = rw (e, take-append out (replicate m 0))
encode_loop-append_all (v ∷ runes) out zero n e h = absurd (unfold room in ground arith)
encode_loop-append_all (v ∷ runes) out (suc m) n e h = elim (Bool-cases (is_normal v)) [
  | inl a ↦
      rw (a, write_next out m n (to_u16 v) e)
        (encode_loop-append_all runes (out ++ (to_u16 v ∷ [])) m (n + 1)
          (omega (arith, length-append out (to_u16 v ∷ []))) (room_next v m runes h))
  | inr a ↦ elim (Bool-cases (needs_pair v)) [
    | inl b ↦
        let (k, q, fits) = room_pair v m runes b h in
        let (r1, r2) = encode_rune v in
        let out1 = out ++ (to_u16 r1 ∷ []) in
        rw
          (
            a,
            b,
            q,
            write_next out (suc k) n (to_u16 r1) e,
            write_next out1 k (n + 1) (to_u16 r2)
                (omega (arith, length-append out (to_u16 r1 ∷ []))),
          )
          (encode_loop-append_all runes (out1 ++ (to_u16 r2 ∷ [])) k (n + 2)
            (omega (arith, length-append out (to_u16 r1 ∷ []), length-append out1 (to_u16 r2 ∷ [])))
            fits)
    | inr b ↦
        rw (a, b, write_next out m n (to_u16 replacement_char) e)
          (encode_loop-append_all runes (out ++ (replacement_char ∷ [])) m (n + 1)
            (omega (arith, length-append out (replacement_char ∷ []))) (room_next v m runes h))
  ]
]

-- `utf16_encode` never writes past the vector that its first loop measured, and gives the units
-- that `utf16_append_rune` appends, on all lists of runes.
pub utf16_encode-append_all : (runes : List ℕ) → utf16_encode runes ≡ some (append_all [] runes)
unfolding utf16_encode
utf16_encode-append_all runes =
    encode_loop-append_all runes [] (unit_count runes (length runes)) 0 refl
      (omega (arith, unit_count-room runes (length runes)))
