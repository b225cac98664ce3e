-- ===== src/Ptr/Acquire.antt =====
-- `__get_copy` of a pointer that the program holds, and `make` of a new one.
use jule.Common.{
  ℕ, zero, suc, ◌+◌, ◌%◌, ◌^◌, ◌<◌, ◌≡◌, ◌≢◌, inl, inr, refl, sym, ap, ◌∙◌, true, false, Option,
  none, some, List, [], ◌∷◌, All, length, ◌==◌, if◌then◌else◌, arith,
}
use native.Mathlib.Decide.{ℕ_discrete}
use jule.Memory.{
  Run, stopped, undefined, Memory, done, put, put_same, put_other, fetch_add-some, put_count,
  put_block,
}
use jule.Ptr.{Ptr, ptr, get_copy, make_instance}
use jule.Ptr.Handles.{refs, Take, refs-Take, All-Take, refs-le-length}
use jule.Ptr.Ownership.{Owns, Good, Live, counted, is_some}

raised : (n : ℕ) → n + 1 < 2 ^ 64 → (n + 1) % 2 ^ 64 ≡ suc n
raised n h = omega arith

module _ {T : Type 0} {pair : ℕ → ℕ} {m : Memory T} {p : Ptr} {hs ks : List Ptr}
    (o : Owns pair m hs) (t : Take p hs ks) (room : length hs + 1 < 2 ^ 64) where
  good : Good pair p
  good = (All-Take (Good pair) t o.handles).0

  -- A copy of a null pointer.
  copy_null : p.ref ≡ 0 → Owns pair m (p ∷ hs)
  copy_null e = record {
    counts_refs = λ c nz. o.counts_refs c nz ∙ ap counted (same c nz);
    handles = (good, o.handles);
    alive = λ c l. o.alive c (back c l);
    owned = λ a h. let (c, l, q) = o.owned a h in (c, (l.0, omega (arith, same c l.0, l.1)), q);
    apart = λ c d l k. o.apart c d (back c l) (back d k);
    few = omega arith;
  }
    where
      same : (c : ℕ) → c ≢ 0 → refs c hs ≡ refs c (p ∷ hs)
      same c nz = ground arith

      back : (c : ℕ) → Live c (p ∷ hs) → Live c hs
      back c (nz, l) = (nz, omega (arith, same c nz))

  module _ (ne : p.ref ≢ 0) where
    held : 0 < refs p.ref hs
    held = ground (arith, refs-Take p.ref t)

    count_now : m.counts p.ref ≡ some (refs p.ref hs)
    count_now = o.counts_refs p.ref ne ∙ counted_pos (refs p.ref hs) held
      where
        counted_pos : (n : ℕ) → 0 < n → counted n ≡ some n
        counted_pos zero h = absurd (omega arith)
        counted_pos (suc n) h = refl

    refs_self : refs p.ref (p ∷ hs) ≡ suc (refs p.ref hs)
    refs_self = ground arith

    -- A copy of a pointer to a block: the counter goes up by one.
    copy_counted :
        Owns pair (record m { counts = put m.counts p.ref (some (suc (refs p.ref hs))) }) (p ∷ hs)
    copy_counted = record {
      counts_refs = λ c nz. elim (ℕ_discrete c p.ref) [
        | yes q ↦
            ap (put m.counts p.ref raised_count) q
            ∙ put_same m.counts p.ref raised_count
            ∙ sym (ap counted refs_self)
            ∙ sym (ap (λ (x : ℕ). counted (refs x (p ∷ hs))) q)
        | no q ↦
            put_other m.counts p.ref c (some (suc (refs p.ref hs))) q
            ∙ o.counts_refs c nz
            ∙ ap counted (other c q)
      ];
      handles = (good, o.handles);
      alive = λ c l. o.alive c (back c l);
      owned = λ a h. let (c, l, q) = o.owned a h in (c, (l.0, ground (arith, l.1)), q);
      apart = λ c d l k. o.apart c d (back c l) (back d k);
      few = omega arith;
    }
      where
        raised_count : Option ℕ
        raised_count = some (suc (refs p.ref hs))

        other : (c : ℕ) → c ≢ p.ref → refs c hs ≡ refs c (p ∷ hs)
        other c q = ground arith

        back : (c : ℕ) → Live c (p ∷ hs) → Live c hs
        back c (nz, l) = elim (ℕ_discrete c p.ref) [
          | yes q ↦ (nz, rw q held)
          | no q ↦ (nz, omega (arith, other c q))
        ]

    get_copy_run :
        get_copy p m
        ≡ done p (record m { counts = put m.counts p.ref (some (suc (refs p.ref hs))) })
    unfolding get_copy
    get_copy_run =
        let not_null : (p.ref == 0) ≡ false = ground arith in
        let fits : refs p.ref hs + 1 < 2 ^ 64 = omega (arith, refs-le-length p.ref hs) in
        rw (
          not_null,
          fetch_add-some m p.ref (refs p.ref hs) 1 count_now,
          raised (refs p.ref hs) fits,
        )

  -- The copy equals its source, and the pointers with the copy own the memory after it.
  pub get_copy-Owns : (m' : Memory T) × (get_copy p m ≡ done p m') × Owns pair m' (p ∷ hs)
  unfolding get_copy
  get_copy-Owns = elim (ℕ_discrete p.ref 0) [
    | yes e ↦ (m, rw e, copy_null e)
    | no ne ↦ (_, get_copy_run ne, copy_counted ne)
  ]

-- A new pair of a counter and a block.
abbrev pub extend : (ℕ → ℕ) → ℕ → ℕ → ℕ → ℕ
extend pair fr fa c = if c == fr then fa else pair c

module _ {T : Type 0} {pair : ℕ → ℕ} {m : Memory T} {hs : List Ptr} (o : Owns pair m hs)
    (room : length hs + 1 < 2 ^ 64) (fr fa : ℕ) (v : T) (fr_ne : fr ≢ 0) (fa_ne : fa ≢ 0)
    (unused : m.counts fr ≡ none) (free : m.blocks fa ≡ none) where
  no_refs : refs fr hs ≡ 0
  no_refs = counted_none (refs fr hs) (sym (o.counts_refs fr fr_ne) ∙ unused)
    where
      counted_none : (n : ℕ) → counted n ≡ none → n ≡ 0
      counted_none zero h = refl
      counted_none (suc n) h = cc

  extend_other : (c : ℕ) → c ≢ fr → extend pair fr fa c ≡ pair c
  extend_other c ne = ground arith

  extend_self : extend pair fr fa fr ≡ fa
  extend_self = ground arith

  still_Good :
      (ks : List Ptr) → refs fr ks ≡ 0 → All (Good pair) ks → All (Good (extend pair fr fa)) ks
  still_Good [] z h = tt
  still_Good (q ∷ ks) z (inl n, h) = (inl n, still_Good ks (omega arith) h)
  still_Good (q ∷ ks) z (inr (ne, e, nz), h) =
      let other : q.ref ≢ fr = λ r. ground arith in
      (inr (ne, e ∙ sym (extend_other q.ref other), nz), still_Good ks (ground arith) h)

  fresh_ptr : Ptr
  fresh_ptr = ptr fa fr

  after : Memory T
  after = record { blocks = put m.blocks fa (some v); counts = put m.counts fr (some 1) }

  make_instance_run : make_instance fr fa v m ≡ done (ptr fa fr) after
  unfolding make_instance put_count put_block after
  make_instance_run =
      let a : (fr == 0) ≡ false = ground arith in
      let b : (fa == 0) ≡ false = ground arith in rw (a, b)

  refs_fresh : refs fr (ptr fa fr ∷ hs) ≡ 1
  refs_fresh = ground (arith, no_refs)

  refs_others : (c : ℕ) → c ≢ fr → refs c hs ≡ refs c (ptr fa fr ∷ hs)
  refs_others c ne = ground arith

  older : (c : ℕ) → c ≢ fr → Live c (ptr fa fr ∷ hs) → Live c hs
  older c ne (nz, l) = (nz, omega (arith, refs_others c ne))

  pair_ne : (c : ℕ) → Live c hs → pair c ≢ fa
  pair_ne c l q = cc (o.alive c l, ap (λ (x : ℕ). is_some (m.blocks x)) q, ap is_some free)

  make_counts : (c : ℕ) → c ≢ 0 → put m.counts fr (some 1) c ≡ counted (refs c (ptr fa fr ∷ hs))
  make_counts c nz = elim (ℕ_discrete c fr) [
    | yes q ↦
        ap (put m.counts fr (some 1)) q
        ∙ put_same m.counts fr (some 1)
        ∙ sym (ap counted refs_fresh)
        ∙ sym (ap (λ (x : ℕ). counted (refs x (ptr fa fr ∷ hs))) q)
    | no q ↦ put_other m.counts fr c (some 1) q ∙ o.counts_refs c nz ∙ ap counted (refs_others c q)
  ]

  make_alive :
      (c : ℕ)
      → Live c (ptr fa fr ∷ hs)
      → is_some (put m.blocks fa (some v) (extend pair fr fa c)) ≡ true
  make_alive c l = elim (ℕ_discrete c fr) [
    | yes q ↦
        let at_fa : extend pair fr fa c ≡ fa = ap (extend pair fr fa) q ∙ extend_self in
        ap (λ (x : ℕ). is_some (put m.blocks fa (some v) x)) at_fa
        ∙ ap is_some (put_same m.blocks fa (some v))
    | no q ↦
        ap (λ (x : ℕ). is_some (put m.blocks fa (some v) x)) (extend_other c q)
        ∙ ap is_some (put_other m.blocks fa (pair c) (some v) (pair_ne c (older c q l)))
        ∙ o.alive c (older c q l)
  ]

  make_owned :
      (a : ℕ)
      → is_some (put m.blocks fa (some v) a) ≡ true
      → (c : ℕ) × Live c (ptr fa fr ∷ hs) × (extend pair fr fa c ≡ a)
  make_owned a h = elim (ℕ_discrete a fa) [
    | yes q ↦ (fr, (fr_ne, omega (arith, refs_fresh)), extend_self ∙ sym q)
    | no q ↦
        let (c, l, e) = o.owned a (sym (ap is_some (put_other m.blocks fa a (some v) q)) ∙ h) in
        let ne : c ≢ fr = λ r. absurd (omega (arith, l.1, no_refs, ap (λ (x : ℕ). refs x hs) r)) in
        (c, (l.0, omega (arith, l.1, refs_others c ne)), extend_other c ne ∙ e)
  ]

  make_apart :
      (c d : ℕ)
      → Live c (ptr fa fr ∷ hs)
      → Live d (ptr fa fr ∷ hs)
      → extend pair fr fa c ≡ extend pair fr fa d
      → c ≡ d
  make_apart c d l k e = elim (ℕ_discrete c fr) [
    | yes q ↦ elim (ℕ_discrete d fr) [
      | yes r ↦ q ∙ sym r
      | no r ↦ absurd (
          pair_ne d (older d r k)
            (sym (extend_other d r) ∙ sym e ∙ ap (extend pair fr fa) q ∙ extend_self))
    ]
    | no q ↦ elim (ℕ_discrete d fr) [
      | yes r ↦ absurd (
          pair_ne c (older c q l)
            (sym (extend_other c q) ∙ e ∙ ap (extend pair fr fa) r ∙ extend_self))
      | no r ↦
          o.apart c d (older c q l) (older d r k) (sym (extend_other c q) ∙ e ∙ extend_other d r)
    ]
  ]

  -- The new pointer is owned with the others.
  pub make_instance-Owns :
      (m' : Memory T) × (make_instance fr fa v m ≡ done (ptr fa fr) m')
      × Owns (extend pair fr fa) m' (ptr fa fr ∷ hs)
      × (m'.blocks fa ≡ some v)
  unfolding after
  make_instance-Owns = (
    after,
    make_instance_run,
    record {
      counts_refs = make_counts;
      handles = (inr (fr_ne, sym extend_self, fa_ne), still_Good hs no_refs o.handles);
      alive = make_alive;
      owned = make_owned;
      apart = make_apart;
      few = omega arith;
    },
    put_same m.blocks fa (some v),
  )

  -- The other blocks stay as they were.
  pub make_instance-others :
      {q : Ptr} {m' : Memory T} (b : ℕ)
      → make_instance fr fa v m ≡ done q m'
      → b ≢ fa
      → m'.blocks b ≡ m.blocks b
  unfolding after
  make_instance-others b run ne =
      let blocks_of : Run T Ptr → Option T =
        λ r. elim r [ done q h ↦ h.blocks b | stopped p ↦ m.blocks b | undefined ↦ m.blocks b ] in
      ap blocks_of (sym run ∙ make_instance_run) ∙ put_other m.blocks fa b (some v) ne
