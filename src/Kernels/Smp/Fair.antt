-- ===== src/Kernels/Smp/Fair.antt =====
-- Where every CPU gets its turns, the primary CPU of examples/smp-kernel comes to its end.
use axplat_crates.Prelude.{
  ℕ, zero, suc, ◌+◌, ◌^◌, ◌≤◌, ◌<◌, ◌≡◌, refl, subst, ap₂, inl, inr, Bool-cases, true, false, arith,
}
use axplat_crates.Kernels.Smp.{Pc, shut_down, System, state_at}
use axplat_crates.Kernels.Smp.Barrier.{state_at-Inv}
use axplat_crates.Kernels.Smp.Live.{
  work, mover, work_of, is_down, Progress, turn-progress, mover-lt,
}

-- Every CPU gets a turn again and again.
abbrev pub IsFair : (cpu_num : ℕ) (schedule : ℕ → ℕ) → Type 0
IsFair cpu_num schedule = (t i : ℕ) → i < cpu_num → (d : ℕ) × (schedule (t + d) ≡ i)

module _ (cpu_num : ℕ) (stack : ℕ → ℕ) (primary : ℕ) (schedule : ℕ → ℕ) (small : cpu_num < 2 ^ 64)
    (among : primary < cpu_num) where
  abbrev at : ℕ → System
  at t = state_at cpu_num stack primary schedule t

  pos : 0 < cpu_num
  pos = omega arith

  abbrev remains : ℕ → ℕ
  remains t = work_of cpu_num stack primary pos small among (at t)

  abbrev front : ℕ → ℕ
  front t = mover cpu_num stack primary pos small among (at t).inited_cpus ((at t).pc primary)

  abbrev IsUpAt : ℕ → Type 0
  IsUpAt t = is_down cpu_num stack primary pos small among ((at t).pc primary) ≡ false

  step :
      (t : ℕ)
      → IsUpAt t
      → Progress cpu_num stack primary pos small among (at t) (schedule t) (at (suc t))
  unfolding state_at
  step t up =
      turn-progress cpu_num stack primary pos small among (at t) (schedule t)
        (state_at-Inv cpu_num stack primary schedule pos small t) up

  -- By the mover's next turn, some of the work is done.
  soon : (d t : ℕ) → IsUpAt t → schedule (t + d) ≡ front t → (u : ℕ) × (remains u < remains t)
  soon zero t up e = elim (step t up) [
    | inl (same, still) ↦ absurd (still (subst (λ x. schedule x ≡ front t) (omega arith) e))
    | inr less ↦ (suc t, less)
  ]
  soon (suc d) t up e = elim (step t up) [
    | inl ((same, place), still) ↦
        let up' : IsUpAt (suc t) = rw (← place) at up in
        let e' : schedule (suc t + d) ≡ front (suc t) =
          rw (same, place) (subst (λ x. schedule x ≡ front t) (omega arith) e) in
        let (u, less) = soon d (suc t) up' e' in
        (
          u,
          subst (λ x. remains u < x) (ap₂ (work cpu_num stack primary pos small among) same place)
              less,
        )
    | inr less ↦ (suc t, less)
  ]

  is_down→shut_down :
      (q : Pc) → is_down cpu_num stack primary pos small among q ≡ true → q ≡ shut_down
  is_down→shut_down shut_down h = refl
  is_down→shut_down q h = ground arith

  next : IsFair cpu_num schedule → (t : ℕ) → IsUpAt t → (u : ℕ) × (remains u < remains t)
  next fair t up =
      let inv = state_at-Inv cpu_num stack primary schedule pos small t in
      let (d, e) = fair t (front t) (
        mover-lt cpu_num stack primary pos small among (at t).inited_cpus ((at t).pc primary)
          inv.at_primary) in
      soon d t up e

  ends :
      IsFair cpu_num schedule
      → (m t : ℕ) → remains t ≤ m
      → (u : ℕ) × ((at u).pc primary ≡ shut_down)
  ends fair zero t h =
      elim (Bool-cases (is_down cpu_num stack primary pos small among ((at t).pc primary))) [
        | inl down ↦ (t, is_down→shut_down ((at t).pc primary) down)
        | inr up ↦ let (u, less) = next fair t up in absurd (omega arith)
      ]
  ends fair (suc m) t h =
      elim (Bool-cases (is_down cpu_num stack primary pos small among ((at t).pc primary))) [
        | inl down ↦ (t, is_down→shut_down ((at t).pc primary) down)
        | inr up ↦ let (u, less) = next fair t up in ends fair m u (omega arith)
      ]

  -- In every order of the turns that names each of the `CPU_NUM` CPUs again and again, the primary
  -- CPU, which is one of them, gets through the start of the others and the barrier to
  -- `system_off`.
  pub state_at-shut_down : IsFair cpu_num schedule → (t : ℕ) × ((at t).pc primary ≡ shut_down)
  state_at-shut_down fair = ends fair (remains 0) 0 (omega arith)
