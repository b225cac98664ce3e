-- ===== src/Str/Order.antt =====
-- The comparisons of strings: the lexicographic order of their runes.
use Prim.Native.Nat.{min}
use jule.Common.{
  ℕ, zero, suc, ◌≤◌, ◌<◌, ◌≡◌, ◌≢◌, refl, sym, ap, ◌∙◌, ◌⊎◌, inl, inr, Bool, true, false, some,
  List, [], ◌∷◌, ltb, ◌==◌, if◌then◌else◌, length, All, arith,
}
use jule.Utf8.Standard.{IsScalar, IsByte, encodings}
use jule.Str.{Str, first_difference, compare_runes, runes, less, greater, equal}
use jule.Str.Runes.{runes_total, runes-encodings, runes_bad_lead}

-- The lexicographic order.
pub lex : List ℕ → List ℕ → Bool
lex [] [] = false
lex [] (y ∷ b) = true
lex (x ∷ a) [] = false
lex (x ∷ a) (y ∷ b) = if x == y then lex a b else ltb x y

first_difference-lex :
    (n : ℕ) (a b : List ℕ) (behind : Bool)
    → n ≡ min (length a) (length b)
    → behind ≡ ltb (length a) (length b)
    → first_difference ltb n a b behind ≡ lex a b
unfolding first_difference lex
first_difference-lex zero [] [] behind e d = d
first_difference-lex zero [] (y ∷ b) behind e d = ground arith
first_difference-lex zero (x ∷ a) [] behind e d = ground arith
first_difference-lex zero (x ∷ a) (y ∷ b) behind e d = absurd (omega arith)
first_difference-lex (suc n) [] b behind e d = absurd (omega arith)
first_difference-lex (suc n) (x ∷ a) [] behind e d = absurd (omega arith)
first_difference-lex (suc n) (x ∷ a) (y ∷ b) behind e d =
    let rest : first_difference ltb n a b behind ≡ lex a b =
      first_difference-lex n a b behind (omega arith) (ground arith) in
    ground arith

first_difference-lex_swapped :
    (n : ℕ) (a b : List ℕ) (behind : Bool)
    → n ≡ min (length a) (length b)
    → behind ≡ ltb (length b) (length a)
    → first_difference (λ x y. ltb y x) n a b behind ≡ lex b a
unfolding first_difference lex
first_difference-lex_swapped zero [] [] behind e d = d
first_difference-lex_swapped zero [] (y ∷ b) behind e d = ground arith
first_difference-lex_swapped zero (x ∷ a) [] behind e d = ground arith
first_difference-lex_swapped zero (x ∷ a) (y ∷ b) behind e d = absurd (omega arith)
first_difference-lex_swapped (suc n) [] b behind e d = absurd (omega arith)
first_difference-lex_swapped (suc n) (x ∷ a) [] behind e d = absurd (omega arith)
first_difference-lex_swapped (suc n) (x ∷ a) (y ∷ b) behind e d =
    let rest : first_difference (λ x y. ltb y x) n a b behind ≡ lex b a =
      first_difference-lex_swapped n a b behind (omega arith) (ground arith) in
    ground arith

compare_runes-lex : (a b : List ℕ) → compare_runes ltb a b ≡ lex a b
unfolding compare_runes
compare_runes-lex a b = first_difference-lex _ a b _ (ground arith) refl

compare_runes-lex_swapped : (a b : List ℕ) → compare_runes (λ x y. ltb y x) a b ≡ lex b a
unfolding compare_runes
compare_runes-lex_swapped a b = first_difference-lex_swapped _ a b _ (ground arith) refl

lex_irrefl : (a : List ℕ) → lex a a ≡ false
unfolding lex
lex_irrefl [] = refl
lex_irrefl (x ∷ a) = ground (arith, lex_irrefl a)

lex_trans : (a b c : List ℕ) → lex a b ≡ true → lex b c ≡ true → lex a c ≡ true
unfolding lex
lex_trans [] [] c p q = cc
lex_trans [] (y ∷ b) [] p q = q
lex_trans [] (y ∷ b) (z ∷ c) p q = refl
lex_trans (x ∷ a) [] c p q = cc
lex_trans (x ∷ a) (y ∷ b) [] p q = cc
lex_trans (x ∷ a) (y ∷ b) (z ∷ c) p q = ground (arith, lex_trans a b c)

lex-connected : (a b : List ℕ) → (lex a b ≡ true) ⊎ ((a ≡ b) ⊎ (lex b a ≡ true))
unfolding lex
lex-connected [] [] = inr (inl refl)
lex-connected [] (y ∷ b) = inl refl
lex-connected (x ∷ a) [] = inr (inr refl)
lex-connected (x ∷ a) (y ∷ b) = ground (arith, lex-connected a b)

-- `<` of two strings of bytes always has an answer, which is the lexicographic order of their
-- runes; and `>` is that order with the strings exchanged.
pub less-lex :
    (s t : Str)
    → All IsByte s
    → All IsByte t
    → (a : List ℕ) × (b : List ℕ) × (runes s ≡ some a)
      × (runes t ≡ some b)
      × (less s t ≡ some (lex a b))
      × (greater s t ≡ some (lex b a))
unfolding less greater
less-lex s t hs ht =
    let (a, ea, _, _) = runes_total s hs in
    let (b, eb, _, _) = runes_total t ht in
    (a, b, ea, eb, rw (ea, eb, compare_runes-lex a b), rw (ea, eb, compare_runes-lex_swapped a b))

some_inj : {A : Type 0} {a b : A} → some a ≡ some b → a ≡ b
some_inj p = cc

-- `<` is transitive on strings of bytes.
less_trans :
    (s t u : Str)
    → All IsByte s
    → All IsByte t
    → All IsByte u
    → less s t ≡ some true
    → less t u ≡ some true
    → less s u ≡ some true
less_trans s t u hs ht hu p q =
    let (a, b, ea, eb, l1, _) = less-lex s t hs ht in
    let (b', c, eb', ec, l2, _) = less-lex t u ht hu in
    let (a', c', ea', ec', l3, _) = less-lex s u hs hu in
    let same_a : a' ≡ a = some_inj (sym ea' ∙ ea) in
    let same_b : b' ≡ b = some_inj (sym eb' ∙ eb) in
    let same_c : c' ≡ c = some_inj (sym ec' ∙ ec) in
    l3
    ∙ rw (same_a, same_c)
        (ap some (lex_trans a b c (some_inj (sym l1 ∙ p)) (rw same_b at (some_inj (sym l2 ∙ q)))))

-- Of two strings that are the standard encodings of scalar values the first is less than, equal
-- to or greater than the second.
less_trichotomy :
    (a b : List ℕ)
    → All IsScalar a
    → All IsScalar b
    → (less (encodings a) (encodings b) ≡ some true)
      ⊎ ((encodings a ≡ encodings b) ⊎ (greater (encodings a) (encodings b) ≡ some true))
unfolding less greater
less_trichotomy a b ha hb =
    rw
      (
        runes-encodings a ha,
        runes-encodings b hb,
        compare_runes-lex a b,
        compare_runes-lex_swapped a b,
      )
      (elim (lex-connected a b) [
        | inl l ↦ inl (rw l)
        | inr (inl e) ↦ inr (inl (ap encodings e))
        | inr (inr g) ↦ inr (inr (rw g))
      ])

-- Two strings of bytes that agree but for their first byte, and whose first bytes are at least
-- 0xF5 and differ, are neither less, nor greater, nor equal.
pub less_incomparable :
    (b c : ℕ) (s : Str)
    → 0xF5 ≤ b
    → b < 256
    → 0xF5 ≤ c
    → c < 256
    → b ≢ c
    → All IsByte s
    → (less (b ∷ s) (c ∷ s) ≡ some false)
      × (greater (b ∷ s) (c ∷ s) ≡ some false)
      × (equal (b ∷ s) (c ∷ s) ≡ false)
unfolding less greater equal
less_incomparable b c s lb hb lc hc ne hs =
    let (a, ea, _, _) = runes_total (b ∷ s) (hb, hs) in
    let same : runes (c ∷ s) ≡ some a =
      runes_bad_lead c s (inr lc) hc ∙ sym (runes_bad_lead b s (inr lb) hb) ∙ ea in
    let differ : (b == c) ≡ false = ground arith in
    (
      rw (ea, same, compare_runes-lex a a) (ap some (lex_irrefl a)),
      rw (ea, same, compare_runes-lex_swapped a a) (ap some (lex_irrefl a)),
      rw differ,
    )
