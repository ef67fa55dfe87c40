-- ===== src/Kernels/Smp/Barrier.antt =====
-- What holds in every state of examples/smp-kernel, whatever the order in which the CPUs take turns.
use axplat_crates.Prelude.{
  ℕ, zero, suc, ◌-◌, ◌^◌, ◌≤◌, ◌<◌, ◌≡◌, ◌≢◌, sym, subst, ◌∙◌, Bool, true, false, arith, ℕ_discrete,
}
use axplat_crates.Kernels.Smp.{
  Pc, off, secondary_init, secondary_wait, running, starting, waiting, primary_wait, pausing,
  shut_down, System, state_at,
}
use axplat_crates.Kernels.Smp.Inv.{
  rank, launches, launched, Primary, Started, Inv, rank_injective, last_started, on→started,
}
use axplat_crates.Kernels.Smp.Turn.{turn-Inv}

-- A CPU that has added itself to `INITED_CPUS`, and one that has seen `init_smp_ok`.
abbrev pub has_counted : Pc → Bool
has_counted secondary_wait = true
has_counted running = true
has_counted primary_wait = true
has_counted pausing = true
has_counted shut_down = true
has_counted _ = false

abbrev pub past_barrier : Pc → Bool
past_barrier running = true
past_barrier pausing = true
past_barrier shut_down = true
past_barrier _ = false

module _ (cpu_num : ℕ) (stack : ℕ → ℕ) (primary : ℕ) (schedule : ℕ → ℕ) (pos : 0 < cpu_num)
    (small : cpu_num < 2 ^ 64) where
  abbrev at : ℕ → System
  at t = state_at cpu_num stack primary schedule t

  pub state_at-Inv : (t : ℕ) → Inv cpu_num stack primary (at t)
  unfolding state_at
  state_at-Inv zero = record {
    at_primary = ground arith;
    calls = ground arith;
    idle = λ j ne le. ground arith;
    started = λ j ne lt. ground arith;
  }
  state_at-Inv (suc t) =
      turn-Inv cpu_num stack primary pos small (at t) (schedule t) (state_at-Inv t)

  Primary-past :
      (inited : ℕ) (q : Pc)
      → Primary cpu_num stack primary inited q
      → past_barrier q ≡ true
      → inited ≡ cpu_num
  Primary-past inited (starting i l) h e = ground arith
  Primary-past inited q h e = ground arith

  Started-past :
      (inited r : ℕ) (p : Pc)
      → Started cpu_num stack primary inited r p
      → past_barrier p ≡ true
      → inited ≡ cpu_num
  Started-past inited r running h e = h.1
  Started-past inited r p h e = ground arith

  all_launched :
      (q : Pc)
      → Primary cpu_num stack primary cpu_num q
      → (launched cpu_num stack primary q ≡ cpu_num - 1) × (has_counted q ≡ true)
  all_launched (starting i l) h = ground arith
  all_launched q h = ground arith

  Started-counted :
      (r : ℕ) (p : Pc)
      → Started cpu_num stack primary cpu_num r p
      → r < cpu_num
      → has_counted p ≡ true
  Started-counted r secondary_init h lt = absurd (omega arith)
  Started-counted r p h lt = ground arith

  past→all : (t j : ℕ) → past_barrier ((at t).pc j) ≡ true → (at t).inited_cpus ≡ cpu_num
  past→all t j past = elim (ℕ_discrete j primary) [
    | yes e ↦
        Primary-past (at t).inited_cpus ((at t).pc primary) inv.at_primary
          (subst (λ x. past_barrier ((at t).pc x) ≡ true) e past)
    | no d ↦
        Started-past (at t).inited_cpus (rank primary j) ((at t).pc j)
          (inv.started j d (on→started cpu_num stack primary j inv d (λ e. past_not_off past e)))
          past
  ]
    where
      inv : Inv cpu_num stack primary (at t)
      inv = state_at-Inv t

      past_not_off : {p : Pc} → past_barrier p ≡ true → p ≢ off
      past_not_off h e = ground arith

  -- In every order of the turns: once a CPU has left its loop on `init_smp_ok`, which is before
  -- another CPU than the primary one enables its IRQs and before the primary one is in `busy_wait`
  -- or in `system_off`, `INITED_CPUS` is `CPU_NUM` and every CPU has been started and has counted
  -- itself, the primary CPU included. It has to be one of the `CPU_NUM` CPUs.
  pub state_at-barrier :
      (t j i : ℕ)
      → primary < cpu_num
      → past_barrier ((at t).pc j) ≡ true
      → i < cpu_num
      → ((at t).inited_cpus ≡ cpu_num) × (has_counted ((at t).pc i) ≡ true)
  state_at-barrier t j i among past lt =
      let inv = state_at-Inv t in
      let all = past→all t j past in
      let front : Primary cpu_num stack primary cpu_num ((at t).pc primary) =
        rw all at inv.at_primary in
      let (calls, counted) = all_launched ((at t).pc primary) front in
      (
        all,
        elim (ℕ_discrete i primary) [
          | yes e ↦ rw e counted
          | no d ↦
              let below : rank primary i < cpu_num - 1 = ground arith in
              Started-counted (rank primary i) ((at t).pc i)
                (rw all at (inv.started i d (rw calls below))) (omega arith)
        ],
      )

  -- The CPU that initialises has as its rank the number of those that have counted themselves.
  initialising :
      (s : System) (i : ℕ)
      → Inv cpu_num stack primary s
      → s.pc i ≡ secondary_init
      → (i ≢ primary) × (rank primary i ≡ s.inited_cpus)
  initialising s i inv e =
      let other : i ≢ primary = λ q. rw (← q, e) at inv.at_primary in
      let up = on→started cpu_num stack primary i inv other (rw e (λ h. cc)) in
      let state : Started cpu_num stack primary s.inited_cpus (rank primary i) secondary_init =
        rw e at (inv.started i other up) in
      (
        other,
        (last_started cpu_num stack primary s.inited_cpus (rank primary i) (s.pc primary)
            inv.at_primary up state).0,
      )

  launched-le :
      (inited : ℕ) (q : Pc)
      → Primary cpu_num stack primary inited q
      → launched cpu_num stack primary q ≤ cpu_num - 1
  launched-le inited (starting i l) h = ground arith
  launched-le inited (waiting i l) h = omega arith
  launched-le inited q h = ground arith

  -- In every order of the turns: the calls of `cpu_boot` so far are the first of one sequence, which
  -- names the CPUs other than the primary one in ascending order and gives the `i`-th of them the
  -- `i`-th stack, and they are at most `CPU_NUM - 1`, as many as there are stacks. A CPU that has
  -- not been named is off, and no two CPUs are in `init_kernel_secondary` at the same time.
  pub state_at-boots :
      (t i j : ℕ)
      → (k : ℕ) × (k ≤ cpu_num - 1)
        × ((at t).boots ≡ launches cpu_num stack primary k)
        × (i ≢ primary → k ≤ rank primary i → (at t).pc i ≡ off)
        × ((at t).pc i ≡ secondary_init → (at t).pc j ≡ secondary_init → i ≡ j)
  state_at-boots t i j =
      let inv = state_at-Inv t in
      (
        launched cpu_num stack primary ((at t).pc primary),
        launched-le (at t).inited_cpus ((at t).pc primary) inv.at_primary,
        inv.calls,
        inv.idle i,
        λ ei ej.
            let (ni, ri) = initialising (at t) i inv ei in
            let (nj, rj) = initialising (at t) j inv ej in
            rank_injective cpu_num stack primary i j ni nj (ri ∙ sym rj),
      )
