-- ===== src/Kernels/Smp/Turn.antt =====
-- Every turn of a CPU of examples/smp-kernel keeps the invariant of Kernels/Smp/Inv.antt.
use axplat_crates.Prelude.{
  ℕ, suc, ◌+◌, ◌-◌, ◌^◌, ◌≤◌, ◌<◌, ◌≡◌, ◌≢◌, refl, sym, subst, ap, ◌∙◌, inl, inr, Bool-cases, not,
  ◌&&◌, [], ◌∷◌, ◌++◌, ltb, ◌==◌, arith, add64, ==→eq, ℕ_discrete, dec_lt,
}
use axplat_crates.Kernels.Smp.{
  Pc, off, secondary_init, secondary_wait, running, primary_init, starting, waiting, irq_init,
  counting, primary_wait, pausing, shut_down, System, start_round, act, turn, update, power_on,
  goto,
}
use axplat_crates.Kernels.Smp.Inv.{
  rank, cpu_of, launches, launched, Primary, Started, Inv, rank_injective, last_started,
  Started-grow, add64-one, on→started, secondary_moves, update_self, update_other,
}

module _ (cpu_num : ℕ) (stack : ℕ → ℕ) (primary : ℕ) (pos : 0 < cpu_num)
    (small : cpu_num < 2 ^ 64) where
  count-Inv :
      (s : System) (self : ℕ)
      → self ≢ primary
      → s.pc self ≡ secondary_init
      → Inv cpu_num stack primary s
      → Inv cpu_num stack primary
          (record s { inited_cpus = add64 s.inited_cpus 1; pc = update s.pc self secondary_wait })
  count-Inv s self other e inv =
      let r = rank primary self in
      let up = on→started cpu_num stack primary self inv other (rw e (λ h. cc)) in
      let state : Started cpu_num stack primary s.inited_cpus r secondary_init =
        rw e at (inv.started self other up) in
      let (last, lt, front) =
        last_started cpu_num stack primary s.inited_cpus r (s.pc primary) inv.at_primary up state in
      rw (add64-one cpu_num stack primary s.inited_cpus small lt) (
        secondary_moves cpu_num stack primary s self (s.inited_cpus + 1) secondary_wait inv other up
          front (omega arith)
          (λ j ne apart below.
            Started-grow cpu_num stack primary s.inited_cpus (rank primary j) (s.pc j)
              (inv.started j ne below)
              (λ q. apart (rank_injective cpu_num stack primary j self ne other (q ∙ sym last)))
              lt))

  run-Inv :
      (s : System) (self : ℕ)
      → self ≢ primary
      → s.pc self ≡ secondary_wait
      → s.inited_cpus ≡ cpu_num
      → Inv cpu_num stack primary s
      → Inv cpu_num stack primary (goto self running s)
  run-Inv s self other e all inv =
      let up = on→started cpu_num stack primary self inv other (rw e (λ h. cc)) in
      let state : Started cpu_num stack primary s.inited_cpus (rank primary self) secondary_wait =
        rw e at (inv.started self other up) in
      secondary_moves cpu_num stack primary s self s.inited_cpus running inv other up inv.at_primary
        (state, all) (λ j ne apart below. inv.started j ne below)

  -- The primary CPU moves from `q` to `q'` with no call of `cpu_boot`.
  primary_moves :
      (s : System) (inited : ℕ) (q q' : Pc)
      → Inv cpu_num stack primary s
      → s.pc primary ≡ q
      → launched cpu_num stack primary q' ≡ launched cpu_num stack primary q
      → Primary cpu_num stack primary inited q'
      → ((r : ℕ) (p : Pc)
          → r < launched cpu_num stack primary q
          → Started cpu_num stack primary s.inited_cpus r p
          → Started cpu_num stack primary inited r p)
      → Inv cpu_num stack primary (record s { inited_cpus = inited; pc = update s.pc primary q' })
  primary_moves s inited q q' inv e same front grow = record {
    at_primary = rw (update_self s.pc primary q') front;
    calls = rw (update_self s.pc primary q', same, ← e) inv.calls;
    idle = λ j ne le.
        rw (update_other s.pc primary j q' (λ h. ne (sym h)))
          (inv.idle j ne (rw e (rw (update_self s.pc primary q', same) at le)));
    started = λ j ne lt.
        let lt' : rank primary j < launched cpu_num stack primary q =
          rw (update_self s.pc primary q', same) at lt in
        rw (update_other s.pc primary j q' (λ h. ne (sym h)))
          (grow (rank primary j) (s.pc j) lt' (inv.started j ne (rw e lt')));
  }

  rank→cpu : (i l : ℕ) → i ≢ primary → rank primary i ≡ l → cpu_of primary l ≡ i
  rank→cpu i l ne e = ground arith

  launches-suc :
      (l : ℕ)
      → launches cpu_num stack primary (l + 1)
        ≡ launches cpu_num stack primary l ++ (cpu_of primary l, stack l) ∷ []
  launches-suc l = let e : l + 1 ≡ suc l = omega arith in ap (launches cpu_num stack primary) e

  not_le_self : (l : ℕ) → l + 1 ≤ l → ⊥
  not_le_self l h = omega arith

  boot-Inv :
      (s : System) (i l : ℕ)
      → Inv cpu_num stack primary s
      → s.pc primary ≡ starting i l
      → i < cpu_num
      → i ≢ primary
      → l < cpu_num - 1
      → Inv cpu_num stack primary (record s {
        boots = s.boots ++ (i, stack l) ∷ [];
        pc = update (update s.pc primary (waiting i (l + 1))) i (power_on (s.pc i));
      })
  boot-Inv s i l inv e lt other room =
      let front : Primary cpu_num stack primary s.inited_cpus (starting i l) =
        rw e at inv.at_primary in
      let mine : rank primary i ≡ l = omega (arith, front.1) in
      let who : cpu_of primary l ≡ i = rank→cpu i l other mine in
      let was_off : s.pc i ≡ off = inv.idle i other (rw e (omega arith)) in
      let pc' : ℕ → Pc = update (update s.pc primary (waiting i (l + 1))) i (power_on (s.pc i)) in
      let untouched : (j : ℕ) → primary ≢ j → i ≢ j → pc' j ≡ s.pc j = λ j np ni.
        update_other (update s.pc primary (waiting i (l + 1))) i j (power_on (s.pc i)) ni
        ∙ update_other s.pc primary j (waiting i (l + 1)) np in
      let at_head : update (update s.pc primary (waiting i (l + 1))) i (power_on (s.pc i)) primary
          ≡ waiting i (l + 1) =
        update_other (update s.pc primary (waiting i (l + 1))) i primary (power_on (s.pc i)) other
        ∙ update_self s.pc primary (waiting i (l + 1)) in
      record {
        at_primary = rw at_head (lt, other, omega arith, omega arith, omega arith, omega arith);
        calls =
            rw (at_head, launches-suc l, who) (ap (λ b. b ++ (i, stack l) ∷ []) (inv.calls ∙ rw e));
        idle = λ j ne le.
            let le' : l + 1 ≤ rank primary j = rw at_head at le in
            rw (untouched j (λ h. ne (sym h)) (λ h. absurd (not_le_self l (rw (← h, mine) at le'))))
              (inv.idle j ne (rw e (omega arith)));
        started = λ j ne below.
            let below' : rank primary j < l + 1 = rw at_head at below in
            elim (ℕ_discrete i j) [
              | yes h ↦
                  subst (λ x. Started cpu_num stack primary s.inited_cpus (rank primary x) (pc' x))
                    h
                    (rw
                      (
                        update_self (update s.pc primary (waiting i (l + 1))) i (power_on (s.pc i)),
                        was_off,
                      )
                      (omega arith))
              | no d ↦ rw (untouched j (λ h. ne (sym h)) d) (
                  inv.started j ne (
                    rw e (
                      omega (
                        arith,
                        λ (q : rank primary i ≡ rank primary j).
                            d (rank_injective cpu_num stack primary i j other ne q),
                      ))))
            ];
      }

  -- Where a CPU other than the primary one may stand.
  abbrev pub IsSecondary : Pc → Type 0
  IsSecondary off = Unit
  IsSecondary secondary_init = Unit
  IsSecondary secondary_wait = Unit
  IsSecondary running = Unit
  IsSecondary _ = ⊥

  Started-IsSecondary :
      (inited r : ℕ) (p : Pc) → Started cpu_num stack primary inited r p → IsSecondary p
  Started-IsSecondary inited r secondary_init h = tt
  Started-IsSecondary inited r p h = ground arith

  pub pc-IsSecondary :
      (s : System) (self : ℕ)
      → Inv cpu_num stack primary s
      → self ≢ primary
      → IsSecondary (s.pc self)
  pc-IsSecondary s self inv other =
      elim (dec_lt (rank primary self) (launched cpu_num stack primary (s.pc primary))) [
        | yes h ↦
            Started-IsSecondary s.inited_cpus (rank primary self) (s.pc self)
              (inv.started self other h)
        | no h ↦ rw (inv.idle self other (omega arith)) tt
      ]

  secondary-act :
      (s : System) (self : ℕ) (p : Pc)
      → self ≢ primary
      → s.pc self ≡ p
      → IsSecondary p
      → Inv cpu_num stack primary s
      → Inv cpu_num stack primary (act cpu_num stack self p s)
  unfolding act
  secondary-act s self off other e at inv = inv
  secondary-act s self secondary_init other e at inv = count-Inv s self other e inv
  secondary-act s self secondary_wait other e at inv =
      elim (Bool-cases (s.inited_cpus == cpu_num)) [
        | inl all ↦ rw all (run-Inv s self other e (==→eq s.inited_cpus cpu_num all) inv)
        | inr wait ↦ rw wait inv
      ]
  secondary-act s self running other e at inv = inv
  secondary-act s self p other e at inv = absurd at

  start_round-Inv :
      (s : System) (i l : ℕ)
      → s.pc primary ≡ starting i l
      → Primary cpu_num stack primary s.inited_cpus (starting i l)
      → i < cpu_num
      → Inv cpu_num stack primary s
      → Inv cpu_num stack primary (start_round cpu_num stack primary i l s)
  unfolding start_round
  start_round-Inv s i l e at lt inv =
      elim (Bool-cases (not (i == primary) && ltb l (cpu_num - 1))) [
        | inl yes' ↦ rw yes' (boot-Inv s i l inv e lt (ground arith) (ground arith))
        | inr no' ↦ rw no' (
            primary_moves s s.inited_cpus (starting i l) (starting (i + 1) l) inv e refl
              (ground arith) (λ r q lt h. h))
      ]

  primary-act :
      (s : System) (p : Pc)
      → s.pc primary ≡ p
      → Primary cpu_num stack primary s.inited_cpus p
      → Inv cpu_num stack primary s
      → Inv cpu_num stack primary (act cpu_num stack primary p s)
  unfolding act start_round
  primary-act s primary_init e at inv =
      primary_moves s s.inited_cpus primary_init (starting 0 0) inv e refl (ground arith)
        (λ r q lt h. h)
  primary-act s (starting i l) e at inv = elim (Bool-cases (ltb i cpu_num)) [
    | inl more ↦ rw more (start_round-Inv s i l e at (ground arith) inv)
    | inr done ↦ rw done (
        primary_moves s s.inited_cpus (starting i l) irq_init inv e (ground arith) (ground arith)
          (λ r q lt h. h))
  ]
  primary-act s (waiting i l) e at inv = elim (Bool-cases (ltb s.inited_cpus l)) [
    | inl wait ↦ rw wait inv
    | inr done ↦ rw done (
        primary_moves s s.inited_cpus (waiting i l) (starting (i + 1) l) inv e refl (ground arith)
          (λ r q lt h. h))
  ]
  primary-act s irq_init e at inv =
      primary_moves s s.inited_cpus irq_init counting inv e refl at (λ r q lt h. h)
  primary-act s counting e at inv =
      rw (add64-one cpu_num stack primary s.inited_cpus small (omega arith)) (
        primary_moves s (s.inited_cpus + 1) counting primary_wait inv e refl at (λ r q lt h.
          Started-grow cpu_num stack primary s.inited_cpus r q h (λ x. absurd (omega arith))
            (omega arith)))
  primary-act s primary_wait e at inv = elim (Bool-cases (s.inited_cpus == cpu_num)) [
    | inl all ↦
        rw all (primary_moves s s.inited_cpus primary_wait pausing inv e refl at (λ r q lt h. h))
    | inr wait ↦ rw wait inv
  ]
  primary-act s pausing e at inv =
      primary_moves s s.inited_cpus pausing shut_down inv e refl at (λ r q lt h. h)
  primary-act s shut_down e at inv = inv
  primary-act s p e at inv = absurd at

  -- Every turn of every CPU keeps the invariant.
  pub turn-Inv :
      (s : System) (self : ℕ)
      → Inv cpu_num stack primary s
      → Inv cpu_num stack primary (turn cpu_num stack self s)
  unfolding turn
  turn-Inv s self inv = elim (ℕ_discrete self primary) [
    | yes e ↦
        subst (λ x. Inv cpu_num stack primary (turn cpu_num stack x s)) (sym e)
          (primary-act s (s.pc primary) refl inv.at_primary inv)
    | no d ↦ secondary-act s self (s.pc self) d refl (pc-IsSecondary s self inv d) inv
  ]
