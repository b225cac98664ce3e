-- ===== src/Std/Thread/Counting.antt =====
-- The count that a handle reports, in every state that a program over counted pointers reaches.
use jule.Common.{
  ℕ, zero, suc, ◌<◌, ◌≡◌, refl, some, List, ◌==◌, if◌then◌else◌, Bool-cases, inl, inr, ◌∙◌, arith,
}
use jule.Memory.{done, load_count-some}
use jule.Ptr
use jule.Ptr.{Ptr}
use jule.Ptr.Handles.{refs, Take, refs-Take}
use jule.Ptr.Ownership.{counted}
use jule.Ptr.Program.{World, start, Reach, Reach-IsSafe}
use jule.Std.Thread.{handle, ref_count}

counted-some : (n : ℕ) → 0 < n → counted n ≡ some n
counted-some zero h = absurd (omega arith)
counted-some (suc n) h = refl

-- In every state that a program over counted pointers reaches, the handle of a held pointer reports
-- how many of the held pointers share its counter, and 0 for a pointer without one.
ref_count-refs :
    {T : Type 0} {w : World T} {p : Ptr} {ks : List Ptr}
    → Reach start w
    → Take p w.held ks
    → ref_count (handle p) w.memory ≡ done (if p.ref == 0 then 0 else refs p.ref w.held) w.memory
unfolding ref_count Ptr.get_ref_n
ref_count-refs {w} {p} r t = elim (Bool-cases (p.ref == 0)) [
  | inl null ↦ rw null refl
  | inr there ↦
      let (pair, o) = Reach-IsSafe r in
      let some_refs : 0 < refs p.ref w.held = ground (arith, refs-Take p.ref t) in
      let count = o.counts_refs p.ref (ground arith) ∙ counted-some (refs p.ref w.held) some_refs in
      rw there (load_count-some w.memory p.ref (refs p.ref w.held) count)
]
