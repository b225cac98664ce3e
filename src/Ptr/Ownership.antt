-- ===== src/Ptr/Ownership.antt =====
-- Reference counting: each counter holds the number of the pointers that share it, a block is
-- allocated exactly while some pointer to it is held, and no operation uses freed memory.
use jule.Common.{
  ℕ, zero, suc, ◌^◌, ◌<◌, ◌≡◌, ◌≢◌, ◌⊎◌, inl, inr, refl, sym, ap, ◌∙◌, Bool, true, false, Option,
  none, some, List, All, length, arith,
}
use native.Mathlib.Decide.{ℕ_discrete}
use jule.Memory.{Memory, put, put_same, put_other}
use jule.Ptr.{Ptr}
use jule.Ptr.Handles.{refs, Take, refs-Take, length-Take, All-Take}

-- What a counter holds for a number of pointers: nothing when there is none.
abbrev pub counted : ℕ → Option ℕ
counted zero = none
counted (suc n) = some (suc n)

abbrev pub is_some {ℓ} : {A : Type ℓ} → Option A → Bool
is_some none = false
is_some (some _) = true

-- `pair` gives the block that belongs to a counter.
abbrev pub Good : (ℕ → ℕ) → Ptr → Type 0
Good pair p = ((p.ref ≡ 0) × (p.alloc ≡ 0)) ⊎ ((p.ref ≢ 0) × (p.alloc ≡ pair p.ref) × (p.alloc ≢ 0))

abbrev pub Live : ℕ → List Ptr → Type 0
Live c hs = (c ≢ 0) × (0 < refs c hs)

counted-some : (n : ℕ) → 0 < n → some n ≡ counted n
counted-some zero h = absurd (omega arith)
counted-some (suc n) h = refl

pub record Owns {T : Type 0} (pair : ℕ → ℕ) (m : Memory T) (hs : List Ptr) : Type 0 where
  pub counts_refs : (c : ℕ) → c ≢ 0 → m.counts c ≡ counted (refs c hs)
  pub handles : All (Good pair) hs
  pub alive : (c : ℕ) → Live c hs → is_some (m.blocks (pair c)) ≡ true
  pub owned : (a : ℕ) → is_some (m.blocks a) ≡ true → (c : ℕ) × Live c hs × (pair c ≡ a)
  pub apart : (c d : ℕ) → Live c hs → Live d hs → pair c ≡ pair d → c ≡ d
  pub few : length hs < 2 ^ 64

module _ {T : Type 0} {pair : ℕ → ℕ} {m : Memory T} {p : Ptr} {hs ks : List Ptr}
    (o : Owns pair m hs) (t : Take p hs ks) where
  more : (c : ℕ) → Live c ks → Live c hs
  more c (ne, h) = (ne, omega (arith, refs-Take c t))

  pub few_left : length ks < 2 ^ 64
  few_left = omega (arith, length-Take t, o.few)

  same_refs : (c : ℕ) → p.ref ≢ c → refs c hs ≡ refs c ks
  same_refs c ne = ground (arith, refs-Take c t)

  less : (c : ℕ) → p.ref ≢ c → Live c hs → Live c ks
  less c ne (nz, l) = (nz, omega (arith, same_refs c ne))

  -- A null pointer goes: the memory stays as it is.
  pub dealloc_null : p.ref ≡ 0 → Owns pair m ks
  dealloc_null e = record {
    counts_refs = λ c nz. o.counts_refs c nz ∙ ap counted (same_refs c (omega arith));
    handles = (All-Take (Good pair) t o.handles).1;
    alive = λ c l. o.alive c (more c l);
    owned = λ a h. let (c, l, e') = o.owned a h in (c, less c (omega (arith, l.0)) l, e');
    apart = λ c d l k. o.apart c d (more c l) (more d k);
    few = few_left;
  }

  module _ (ne : p.ref ≢ 0) where
    pub refs_before : refs p.ref hs ≡ suc (refs p.ref ks)
    refs_before = ground (arith, refs-Take p.ref t)

    pub count_before : m.counts p.ref ≡ some (suc (refs p.ref ks))
    count_before = o.counts_refs p.ref ne ∙ ap counted refs_before

    pub address : (p.alloc ≡ pair p.ref) × (p.alloc ≢ 0)
    address = elim (All-Take (Good pair) t o.handles).0 [
      | inl (z, _) ↦ absurd (ne z)
      | inr (_, e, nz) ↦ (e, nz)
    ]

    -- The counter is lowered to the number of pointers that are left.
    counts_lowered :
        (v : Option ℕ)
        → v ≡ counted (refs p.ref ks)
        → (c : ℕ) → c ≢ 0
        → put m.counts p.ref v c ≡ counted (refs c ks)
    counts_lowered v e c nz = elim (ℕ_discrete c p.ref) [
      | yes q ↦ rw (q, put_same m.counts p.ref v) e
      | no q ↦
          put_other m.counts p.ref c v q
          ∙ o.counts_refs c nz
          ∙ ap counted (same_refs c (λ r. q (sym r)))
    ]

    -- One of several pointers to a block goes.
    pub dealloc_shared :
        0 < refs p.ref ks
        → Owns pair (record m { counts = put m.counts p.ref (some (refs p.ref ks)) }) ks
    dealloc_shared many = record {
      counts_refs = counts_lowered (some (refs p.ref ks)) (counted-some (refs p.ref ks) many);
      handles = (All-Take (Good pair) t o.handles).1;
      alive = λ c l. o.alive c (more c l);
      owned = λ a h. let (c, l, e') = o.owned a h in (c, still c l, e');
      apart = λ c d l k. o.apart c d (more c l) (more d k);
      few = few_left;
    }
      where
        still : (c : ℕ) → Live c hs → Live c ks
        still c l = elim (ℕ_discrete p.ref c) [ yes q ↦ (l.0, rw (← q) many) | no q ↦ less c q l ]

    -- The last pointer to a block goes, and the block and its counter with it.
    pub dealloc_last :
        refs p.ref ks ≡ 0
        → Owns pair
            (record m { counts = put m.counts p.ref none; blocks = put m.blocks p.alloc none })
            ks
    dealloc_last z = record {
      counts_refs = counts_lowered none (rw z);
      handles = (All-Take (Good pair) t o.handles).1;
      alive =
          λ c l. rw (put_other m.blocks p.alloc (pair c) none (other c l)) (o.alive c (more c l));
      owned = λ a h.
          let ne_a : a ≢ p.alloc = λ q. none_there a q h in
          let (c, l, e') = o.owned a (rw (put_other m.blocks p.alloc a none ne_a) at h) in
          (c, less c (λ q. ne_a (sym e' ∙ ap pair (sym q) ∙ sym address.0)) l, e');
      apart = λ c d l k. o.apart c d (more c l) (more d k);
      few = few_left;
    }
      where
        self : Live p.ref hs
        self = (ne, omega (arith, refs_before))

        other : (c : ℕ) → Live c ks → pair c ≢ p.alloc
        other c l q =
            let same : c ≡ p.ref = o.apart c p.ref (more c l) self (q ∙ address.0) in
            absurd (omega (arith, l.1, ap (λ (x : ℕ). refs x ks) same))

        none_there : (a : ℕ) → a ≡ p.alloc → is_some (put m.blocks p.alloc none a) ≢ true
        none_there a q h = cc (rw (q, put_same m.blocks p.alloc none) at h)
