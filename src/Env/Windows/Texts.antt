-- ===== src/Env/Windows/Texts.antt =====
-- The arguments and the environment on Windows as the texts that the system's units stand for.
use jule.Common.{
  ℕ, zero, suc, ◌+◌, ◌≤◌, ◌<◌, ◌≡◌, ◌≢◌, refl, ap, Bool-cases, inl, inr, ltb, sym, subst, ◌∙◌,
  false, some, List, [], ◌∷◌, ◌++◌, append-nil, append_assoc, map, length, length-map,
  length-append, get_or, ◌==◌, All, arith,
}
use jule.Common.Int.{pos}
use jule.Memory.{Memory, done}
use jule.Slice.{Slice, nil_slice, at}
use jule.Slice.Grow.{Unused}
use jule.Slice.Sequence.{Lists, nil-Lists, at-Lists}
use jule.Slice.Sequence.Pushes.{Supply, push-Supply}
use jule.Utf16.ToStr.{text_of, utf16_to_utf8_str-text_of}
use jule.Utf16.NullEnd.{NonZero}
use jule.Utf16.Standard.{encoding16, encodings16}
use jule.Utf16.Trip.{IsKept, text_of-encodings16}
use jule.Utf8.Standard.{encodings}
use jule.Str.{Str}
use jule.Env.{Process}
use jule.Env.Arguments.{Texts, args_of-items}
use jule.Env.Windows.{scan, from_wide, args_windows, env_windows, env_windows_loop}

scan-ended : (w rest : List ℕ) → NonZero w → scan (w ++ (0 ∷ rest)) ≡ some (w, rest)
unfolding scan
scan-ended [] rest nz = refl
scan-ended (u ∷ w) rest (some_unit, nz) =
    let other : (u == 0) ≡ false = ground (arith, some_unit) in
    rw (other, scan-ended w rest nz) refl

-- Texts with their zeros.
abbrev pub ended : List (List ℕ) → List (List ℕ)
ended = map (λ w. w ++ (0 ∷ []))

ended-Texts : (ws : List (List ℕ)) → All NonZero ws → Texts from_wide (ended ws) (map text_of ws)
unfolding from_wide
ended-Texts [] nz = tt
ended-Texts (w ∷ ws) (here, nz) =
    (rw (scan-ended w [] here, from_wide) (utf16_to_utf8_str-text_of w), ended-Texts ws nz)

args_windows-items :
    {m : Memory (List Str)} {fresh fresh_ref : ℕ}
    → Unused m fresh fresh_ref
    → (p : Process) (ws : List (List ℕ)) → All NonZero ws
    → (t : Slice) × (m' : Memory (List Str)) × (args_windows fresh fresh_ref (ended ws) p m
        ≡ done (record p { argc = length ws }, t) m')
      × (t.len ≡ length ws)
      × ((i : ℕ) → i < length ws → at t (pos i) m' ≡ done (get_or (map text_of ws) i []) m')
unfolding args_windows
args_windows-items u p ws nz =
    let size : length (map text_of ws) ≡ length ws = length-map text_of ws in
    let size_w : length (ended ws) ≡ length ws = length-map (λ w. w ++ (0 ∷ [])) ws in
    let (t, m', run, len, items, _) =
      args_of-items u from_wide (length (ended ws)) (ended ws) (map text_of ws) (ended-Texts ws nz)
        (size_w ∙ sym size) in
    (t, m', rw run (rw size_w refl), len ∙ size, λ i h. items i (omega (arith, size)))

-- The block of the environment: the texts with their zeros, and one zero more.
abbrev pub block : List (List ℕ) → List ℕ
block [] = 0 ∷ []
block (w ∷ ws) = w ++ (0 ∷ block ws)

-- Units that are not empty and without zeros.
abbrev IsEntry : List ℕ → Type 0
IsEntry w = (w ≢ []) × NonZero w

-- A text of runes that is not empty, without zeros and kept by the conversion from UTF-16 to UTF-8.
abbrev pub IsName : List ℕ → Type 0
IsName rs = (rs ≢ []) × NonZero rs × All IsKept rs

encoding16-NonZero : (r : ℕ) (us : List ℕ) → r ≢ 0 → NonZero us → NonZero (encoding16 r ++ us)
encoding16-NonZero r us h n = elim (Bool-cases (ltb r 0x10000)) [
  | inl short ↦ rw short (h, n)
  | inr long ↦ rw long (omega arith, (omega arith, n))
]

encodings16-NonZero : (rs : List ℕ) → NonZero rs → NonZero (encodings16 rs)
encodings16-NonZero [] h = tt
encodings16-NonZero (r ∷ rs) (h, hs) =
    encoding16-NonZero r (encodings16 rs) h (encodings16-NonZero rs hs)

encodings16-IsEntry : (rs : List ℕ) → IsName rs → IsEntry (encodings16 rs)
encodings16-IsEntry [] (some_rune, _, _) = absurd (some_rune refl)
encodings16-IsEntry (r ∷ rs) (_, nz, _) = (
  (λ e. elim (Bool-cases (ltb r 0x10000)) [
    | inl short ↦ absurd (omega (arith, ap length (rw short at e)))
    | inr long ↦ absurd (omega (arith, ap length (rw long at e)))
  ]),
  encodings16-NonZero (r ∷ rs) nz,
)

names-IsEntry : (names : List (List ℕ)) → All IsName names → All IsEntry (map encodings16 names)
names-IsEntry [] h = tt
names-IsEntry (rs ∷ names) (h, hs) = (encodings16-IsEntry rs h, names-IsEntry names hs)

names-text_of :
    (names : List (List ℕ))
    → All IsName names
    → map text_of (map encodings16 names) ≡ map encodings names
names-text_of [] h = refl
names-text_of (rs ∷ names) ((_, _, kept), hs) =
    rw (text_of-encodings16 rs kept, names-text_of names hs) refl

module _ {fresh : ℕ → ℕ × ℕ} where
  env_windows_loop-Lists :
      (fuel i : ℕ) (ws : List (List ℕ)) (m : Memory (List Str)) (s : Slice) (ys : List Str)
      → All IsEntry ws
      → length (block ws) ≤ fuel
      → Supply fresh i m
      → Lists [] m s ys
      → (t : Slice) × (m' : Memory (List Str)) × (env_windows_loop fuel fresh i (block ws) s m
          ≡ done t m')
        × Lists [] m' t (ys ++ map text_of ws)
  unfolding env_windows_loop
  env_windows_loop-Lists zero i [] m s ys entries h supply l = absurd (omega (arith, h))
  env_windows_loop-Lists zero i (w ∷ ws) m s ys entries h supply l =
      absurd (omega (arith, h, length-append w (0 ∷ block ws)))
  env_windows_loop-Lists (suc fuel) i [] m s ys entries h supply l =
      (s, m, refl, subst (λ zs. Lists [] m s zs) (sym (append-nil ys)) l)
  env_windows_loop-Lists (suc fuel) i ([] ∷ ws) m s ys ((some_unit, _), _) h supply l =
      absurd (some_unit refl)
  env_windows_loop-Lists (suc fuel) i ((u ∷ w) ∷ ws) m s ys ((_, (unit, nz)), entries) h supply l =
      let (t, m1, run, l1, later) = push-Supply [] supply l (text_of (u ∷ w)) in
      let other : (u == 0) ≡ false = ground (arith, unit) in
      let (t', m2, rest, l2) =
        env_windows_loop-Lists fuel (i + 1) ws m1 t (ys ++ (text_of (u ∷ w) ∷ [])) entries
          (omega (arith, h, length-append w (0 ∷ block ws))) later l1 in
      (
        t',
        m2,
        rw (other, scan-ended w (block ws) nz, utf16_to_utf8_str-text_of (u ∷ w)) (rw run rest),
        subst (λ zs. Lists [] m2 t' zs) (append_assoc ys (text_of (u ∷ w) ∷ []) (map text_of ws))
            l2,
      )

  -- For the block of the standard UTF-16 units of texts that are not empty and consist of scalar
  -- values other than zero, U+07FF and those of the even planes from 2 on, where the allocations
  -- return addresses that are not null, unused and different: `env` ends with the slice of the
  -- standard UTF-8 bytes of the texts in their order.
  pub env_windows-items :
      {m : Memory (List Str)} (names : List (List ℕ))
      → All IsName names
      → Supply fresh 0 m
      → (t : Slice) × (m' : Memory (List Str)) × (env_windows fresh
            (block (map encodings16 names))
            m
          ≡ done t m')
        × (t.len ≡ length names)
        × ((i : ℕ)
            → i < length names
            → at t (pos i) m' ≡ done (get_or (map encodings names) i []) m')
  unfolding env_windows
  env_windows-items {m} names h supply =
      let ws = map encodings16 names in
      let texts : map text_of ws ≡ map encodings names = names-text_of names h in
      let size : length (map encodings names) ≡ length names = length-map encodings names in
      let (t, m', run, l) =
        env_windows_loop-Lists (length (block ws)) 0 ws m nil_slice [] (names-IsEntry names h)
          (omega arith) supply (nil-Lists [] m) in
      let l' = subst (λ ys. Lists [] m' t ys) texts l in
      (t, m', run, l'.size ∙ size, λ i lt. at-Lists l' i (omega (arith, size)))
