-- ===== src/Kernels/Smp/Live.antt =====
-- Where every CPU gets its turns, examples/smp-kernel comes to its end.
use axplat_crates.Prelude.{
  ℕ, ◌+◌, ◌-◌, ◌*◌, ◌^◌, ◌≤◌, ◌<◌, ◌≡◌, ◌≢◌, refl, sym, subst, ◌⊎◌, inl, inr, Bool-cases, Bool,
  true, false, not, ◌&&◌, ltb, ◌==◌, if◌then◌else◌, arith, add64, ℕ_discrete, eq→==,
}
use axplat_crates.Kernels.Smp.{
  Pc, off, secondary_init, secondary_wait, running, primary_init, starting, waiting, irq_init,
  counting, primary_wait, pausing, shut_down, System, start_round, act, turn, update, power_on,
}
use axplat_crates.Kernels.Smp.Inv.{
  rank, launched, Primary, Started, Inv, last_started, on→started, update_self, update_other,
  add64-one,
}
use axplat_crates.Kernels.Smp.Turn.{pc-IsSecondary, IsSecondary}

module _ (cpu_num : ℕ) (stack : ℕ → ℕ) (primary : ℕ) (pos : 0 < cpu_num) (small : cpu_num < 2 ^ 64)
    (among : primary < cpu_num) where
  -- What the primary CPU has still to do, in steps that change its place or the counter it reads.
  pub work : ℕ → Pc → ℕ
  work inited primary_init = 3 * cpu_num + 10
  work inited (starting i l) = 3 * (cpu_num - i) + 6
  work inited (waiting i l) = 3 * (cpu_num - i) + 4 + (l - inited)
  work inited irq_init = 5
  work inited counting = 4
  work inited primary_wait = 3
  work inited pausing = 2
  work inited _ = 0

  -- The CPU whose turn brings the primary CPU forward.
  pub mover : ℕ → Pc → ℕ
  mover inited (waiting i l) = if ltb inited l then i else primary
  mover inited _ = primary

  pub mover-lt :
      (inited : ℕ) (q : Pc) → Primary cpu_num stack primary inited q → mover inited q < cpu_num
  unfolding mover
  mover-lt inited (waiting i l) h = ground arith
  mover-lt inited q h = among

  abbrev pub work_of : System → ℕ
  work_of s = work s.inited_cpus (s.pc primary)

  -- A turn changes neither the counter nor the place of the primary CPU, or it does some of the work.
  abbrev pub Same : System → System → Type 0
  Same s t = (t.inited_cpus ≡ s.inited_cpus) × (t.pc primary ≡ s.pc primary)

  count-work :
      (inited r : ℕ) (q : Pc)
      → Primary cpu_num stack primary inited q
      → r < launched cpu_num stack primary q
      → inited ≤ r
      → work (inited + 1) q < work inited q
  unfolding work
  count-work inited r (waiting i l) h lt le = omega arith
  count-work inited r q h lt le = ground arith

  moved :
      (s : System) (inited : ℕ) (q : Pc) (w : ℕ)
      → work inited q < w
      → work_of (record s { inited_cpus = inited; pc = update s.pc primary q }) < w
  moved s inited q w h = rw (update_self s.pc primary q) h

  abbrev pub is_down : Pc → Bool
  is_down shut_down = true
  is_down _ = false

  start_round-work :
      (s : System) (i l : ℕ)
      → Primary cpu_num stack primary s.inited_cpus (starting i l)
      → i < cpu_num
      → work_of (start_round cpu_num stack primary i l s) < 3 * (cpu_num - i) + 6
  unfolding work start_round
  start_round-work s i l h lt = elim (Bool-cases (not (i == primary) && ltb l (cpu_num - 1))) [
    | inl boot ↦
        rw
          (
            boot,
            update_other (update s.pc primary (waiting i (l + 1))) i primary (power_on (s.pc i))
                (ground arith),
            update_self s.pc primary (waiting i (l + 1)),
          )
          (omega arith)
    | inr skip ↦
        rw skip (moved s s.inited_cpus (starting (i + 1) l) (3 * (cpu_num - i) + 6) (omega arith))
  ]

  Primary-work :
      (s : System) (p : Pc)
      → Primary cpu_num stack primary s.inited_cpus p
      → is_down p ≡ false
      → ((act cpu_num stack primary p s ≡ s) × (primary ≢ mover s.inited_cpus p))
        ⊎ (work_of (act cpu_num stack primary p s) < work s.inited_cpus p)
  unfolding work act mover
  Primary-work s primary_init h up =
      inr (moved s s.inited_cpus (starting 0 0) (3 * cpu_num + 10) (omega arith))
  Primary-work s (starting i l) h up = elim (Bool-cases (ltb i cpu_num)) [
    | inl more ↦ rw more (inr (start_round-work s i l h (ground arith)))
    | inr done ↦
        rw done (inr (moved s s.inited_cpus irq_init (3 * (cpu_num - i) + 6) (omega arith)))
  ]
  Primary-work s (waiting i l) h up = elim (Bool-cases (ltb s.inited_cpus l)) [
    | inl wait ↦ rw wait (inl (refl, λ e. h.1 (sym e)))
    | inr done ↦ rw done (
        inr (
          moved s s.inited_cpus (starting (i + 1) l) (3 * (cpu_num - i) + 4 + (l - s.inited_cpus))
            (omega arith)))
  ]
  Primary-work s irq_init h up = inr (moved s s.inited_cpus counting 5 (omega arith))
  Primary-work s counting h up = inr (moved s (add64 s.inited_cpus 1) primary_wait 4 (omega arith))
  Primary-work s primary_wait h up =
      rw (eq→== s.inited_cpus cpu_num h) (inr (moved s s.inited_cpus pausing 3 (omega arith)))
  Primary-work s pausing h up = inr (moved s s.inited_cpus shut_down 2 (omega arith))
  Primary-work s p h up = ground arith

  mover_waits :
      (inited self : ℕ) (q : Pc)
      → Primary cpu_num stack primary inited q
      → self ≢ primary
      → self ≡ mover inited q
      → (rank primary self < launched cpu_num stack primary q) × (inited ≤ rank primary self)
  unfolding mover
  mover_waits inited self (waiting i l) h other e = elim (Bool-cases (ltb inited l)) [
    | inl wait ↦ let e' : self ≡ i = rw wait at e in rw e' (omega arith, ground arith)
    | inr done ↦ absurd (other (rw done at e))
  ]
  mover_waits inited self q h other e = absurd (other e)

  Started-initialises :
      (inited r : ℕ) (p : Pc)
      → Started cpu_num stack primary inited r p
      → inited ≤ r
      → p ≡ secondary_init
  Started-initialises inited r secondary_init h le = refl
  Started-initialises inited r p h le = ground arith

  -- A secondary CPU that the primary one waits for is in its initialisation.
  mover_initialises :
      (s : System) (self : ℕ)
      → Inv cpu_num stack primary s
      → self ≢ primary
      → self ≡ mover s.inited_cpus (s.pc primary)
      → s.pc self ≡ secondary_init
  mover_initialises s self inv other e =
      let (up, le) = mover_waits s.inited_cpus self (s.pc primary) inv.at_primary other e in
      Started-initialises s.inited_cpus (rank primary self) (s.pc self) (inv.started self other up)
        le

  -- A turn leaves the counter and the place of the primary CPU alone, and is not the mover's, or it
  -- does some of the work.
  abbrev pub Progress : System → ℕ → System → Type 0
  Progress s self t =
      (Same s t × (self ≢ mover s.inited_cpus (s.pc primary))) ⊎ (work_of t < work_of s)

  secondary-work :
      (s : System) (self : ℕ) (p : Pc)
      → Inv cpu_num stack primary s
      → self ≢ primary
      → s.pc self ≡ p
      → IsSecondary cpu_num stack primary pos small p
      → Progress s self (act cpu_num stack self p s)
  unfolding act
  secondary-work s self off inv other e at =
      inl ((refl, refl), λ m. cc (mover_initialises s self inv other m))
  secondary-work s self secondary_init inv other e at =
      let up = on→started cpu_num stack primary self inv other (rw e (λ h. cc)) in
      let state : Started cpu_num stack primary s.inited_cpus (rank primary self) secondary_init =
        rw e at (inv.started self other up) in
      let (last, lt, front) =
        last_started cpu_num stack primary s.inited_cpus (rank primary self) (s.pc primary)
          inv.at_primary up state in
      inr (
        rw
          (
            add64-one cpu_num stack primary s.inited_cpus small lt,
            update_other s.pc self primary secondary_wait other,
          )
          (count-work s.inited_cpus (rank primary self) (s.pc primary) inv.at_primary up state))
  secondary-work s self secondary_wait inv other e at =
      let still : self ≢ mover s.inited_cpus (s.pc primary) =
        λ m. cc (mover_initialises s self inv other m) in
      elim (Bool-cases (s.inited_cpus == cpu_num)) [
        | inl all ↦ rw all (inl ((refl, update_other s.pc self primary running other), still))
        | inr wait ↦ rw wait (inl ((refl, refl), still))
      ]
  secondary-work s self running inv other e at =
      inl ((refl, refl), λ m. cc (mover_initialises s self inv other m))
  secondary-work s self p inv other e at = absurd at

  pub turn-progress :
      (s : System) (self : ℕ)
      → Inv cpu_num stack primary s
      → is_down (s.pc primary) ≡ false
      → Progress s self (turn cpu_num stack self s)
  unfolding turn
  turn-progress s self inv up = elim (ℕ_discrete self primary) [
    | yes e ↦
        subst (λ x. Progress s x (turn cpu_num stack x s)) (sym e)
          (elim (Primary-work s (s.pc primary) inv.at_primary up) [
            | inl h ↦ inl (rw (h.0) ((refl, refl), h.1))
            | inr h ↦ inr h
          ])
    | no d ↦
        secondary-work s self (s.pc self) inv d refl
          (pc-IsSecondary cpu_num stack primary pos small s self inv d)
  ]
