-- ===== src/Env/Entries.antt =====
-- The slice of the environment of the process, which is pushed entry by entry.
use jule.Common.{
  ℕ, ◌+◌, ◌<◌, ◌≡◌, refl, sym, subst, List, [], ◌∷◌, ◌++◌, append-nil, append_assoc, length, get_or,
}
use jule.Common.Int.{pos}
use jule.Memory.{Memory, done}
use jule.Slice.{Slice, nil_slice, at}
use jule.Slice.Sequence.{Lists, nil-Lists, at-Lists}
use jule.Slice.Sequence.Pushes.{Supply, push-Supply}
use jule.Str.{Str}
use jule.Str.Bytes.{from_c_string}
use jule.Env.{Process, env, env_loop}
use jule.Env.Arguments.{Texts}

module _ {fresh : ℕ → ℕ × ℕ} where
  env_loop-Lists :
      (i : ℕ) (it : List (List ℕ)) (ss : List Str) (m : Memory (List Str)) (s : Slice)
      (ys : List Str)
      → Texts from_c_string it ss
      → Supply fresh i m
      → Lists [] m s ys
      → (t : Slice) × (m' : Memory (List Str)) × (env_loop fresh i it s m ≡ done t m')
        × Lists [] m' t (ys ++ ss)
  unfolding env_loop
  env_loop-Lists i [] [] m s ys texts supply l =
      (s, m, refl, subst (λ zs. Lists [] m s zs) (sym (append-nil ys)) l)
  env_loop-Lists i [] (v ∷ ss) m s ys texts supply l = absurd texts
  env_loop-Lists i (e ∷ it) [] m s ys texts supply l = absurd texts
  env_loop-Lists i (e ∷ it) (v ∷ ss) m s ys (text, texts) supply l =
      let (t, m1, run, l1, later) = push-Supply [] supply l v in
      let (t', m2, rest, l2) = env_loop-Lists (i + 1) it ss m1 t (ys ++ (v ∷ [])) texts later l1 in
      (
        t',
        m2,
        rw (text, env_loop) (rw run rest),
        subst (λ zs. Lists [] m2 t' zs) (append_assoc ys (v ∷ []) ss) l2,
      )

  -- For entries with texts, where the allocations return addresses that are not null, unused and
  -- different: `env` ends with the slice of these texts in their order.
  pub env-items :
      {m : Memory (List Str)} (p : Process) (ss : List Str)
      → Texts from_c_string p.envp ss
      → Supply fresh 0 m
      → (t : Slice) × (m' : Memory (List Str)) × (env fresh p m ≡ done t m')
        × (t.len ≡ length ss)
        × ((i : ℕ) → i < length ss → at t (pos i) m' ≡ done (get_or ss i []) m')
  unfolding env
  env-items {m} p ss texts supply =
      let (t, m', run, l) =
        env_loop-Lists 0 p.envp ss m nil_slice [] texts supply (nil-Lists [] m) in
      (t, m', run, l.size, at-Lists l)
