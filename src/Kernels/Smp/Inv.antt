-- ===== src/Kernels/Smp/Inv.antt =====
-- What every turn of a CPU of examples/smp-kernel keeps: which CPUs were started, and how far they are.
use axplat_crates.Prelude.{
  ℕ, zero, suc, ◌+◌, ◌-◌, ◌^◌, ◌≤◌, ◌<◌, ◌≡◌, ◌≢◌, refl, List, [], ◌∷◌, ◌++◌, ltb, if◌then◌else◌,
  min, arith, dec_lt, ℕ_discrete, add64, eq→==, sym, subst,
}
use axplat_crates.Kernels.Smp.{
  Pc, off, secondary_init, secondary_wait, running, primary_init, starting, waiting, irq_init,
  counting, primary_wait, pausing, shut_down, System, update,
}

-- The number of a CPU among those that are not the primary one, and the CPU of such a number.
abbrev pub rank : (primary i : ℕ) → ℕ
rank primary i = if ltb primary i then i - 1 else i

abbrev pub cpu_of : (primary r : ℕ) → ℕ
cpu_of primary r = if ltb r primary then r else r + 1

pub update_self : (pc : ℕ → Pc) (i : ℕ) (p : Pc) → update pc i p i ≡ p
update_self pc i p = rw (eq→== i i refl)

pub update_other : (pc : ℕ → Pc) (i j : ℕ) (p : Pc) → i ≢ j → update pc i p j ≡ pc j
update_other pc i j p ne = ground arith

module _ (cpu_num : ℕ) (stack : ℕ → ℕ) (primary : ℕ) where
  -- The first `k` calls of `cpu_boot`.
  abbrev pub launches : ℕ → List (ℕ × ℕ)
  launches zero = []
  launches (suc k) = launches k ++ (cpu_of primary k, stack k) ∷ []

  -- How many calls the primary CPU has made.
  abbrev pub launched : Pc → ℕ
  launched primary_init = 0
  launched (starting i l) = l
  launched (waiting i l) = l
  launched _ = cpu_num - 1

  -- The local variables of the primary CPU, and what it knows of `INITED_CPUS`.
  abbrev pub Primary : ℕ → Pc → Type 0
  Primary inited primary_init = inited ≡ 0
  Primary inited (starting i l) =
      (i ≤ cpu_num) × (l ≡ min (cpu_num - 1) (rank primary i)) × (inited ≡ l)
  Primary inited (waiting i l) =
      (i < cpu_num)
      × (i ≢ primary)
      × (l ≡ rank primary i + 1)
      × (l < cpu_num)
      × (inited ≤ l)
      × (l ≤ inited + 1)
  Primary inited irq_init = inited + 1 ≡ cpu_num
  Primary inited counting = inited + 1 ≡ cpu_num
  Primary inited primary_wait = inited ≡ cpu_num
  Primary inited pausing = inited ≡ cpu_num
  Primary inited shut_down = inited ≡ cpu_num
  Primary inited _ = ⊥

  -- The CPU of rank `r`, once it is started: it has counted itself if `r` CPUs had done so before.
  abbrev pub Started : ℕ → ℕ → Pc → Type 0
  Started inited r secondary_init = inited ≤ r
  Started inited r secondary_wait = r < inited
  Started inited r running = (r < inited) × (inited ≡ cpu_num)
  Started inited r _ = ⊥

  pub record Inv (s : System) : Type 0 where
    pub at_primary : Primary s.inited_cpus (s.pc primary)
    pub calls : s.boots ≡ launches (launched (s.pc primary))
    pub idle : (j : ℕ) → j ≢ primary → launched (s.pc primary) ≤ rank primary j → s.pc j ≡ off
    pub started :
        (j : ℕ)
        → j ≢ primary
        → rank primary j < launched (s.pc primary)
        → Started s.inited_cpus (rank primary j) (s.pc j)

  pub rank_injective :
      (i j : ℕ) → i ≢ primary → j ≢ primary → rank primary i ≡ rank primary j → i ≡ j
  rank_injective i j ip jp e = ground arith

  -- A CPU that has been started and has not counted itself is the last one started, and the primary
  -- CPU waits for it.
  pub last_started :
      (inited r : ℕ) (q : Pc)
      → Primary inited q
      → r < launched q
      → inited ≤ r
      → (r ≡ inited) × (inited < cpu_num) × Primary (inited + 1) q
  last_started inited r (waiting i l) h lt le = omega arith
  last_started inited r q h lt le = ground arith

  pub Started-grow :
      (inited r : ℕ) (p : Pc)
      → Started inited r p
      → r ≢ inited
      → inited < cpu_num
      → Started (inited + 1) r p
  Started-grow inited r secondary_init h ne lt = omega arith
  Started-grow inited r p h ne lt = ground arith

  pub add64-one : (n : ℕ) → cpu_num < 2 ^ 64 → n < cpu_num → add64 n 1 ≡ n + 1
  add64-one n small lt = omega arith

  -- The primary CPU stays where it is when another one moves to `p`.
  elsewhere :
      (s : System) (self : ℕ) (p : Pc) → self ≢ primary → update s.pc self p primary ≡ s.pc primary
  elsewhere s self p ne = ground arith

  -- A CPU that is not off has been started.
  pub on→started :
      {s : System} (self : ℕ)
      → Inv s
      → self ≢ primary
      → s.pc self ≢ off
      → rank primary self < launched (s.pc primary)
  on→started {s} self inv ne on = elim (dec_lt (rank primary self) (launched (s.pc primary))) [
    | yes h ↦ h
    | no h ↦ absurd (on (inv.idle self ne (omega arith)))
  ]

  -- A CPU that is up moves to `p`, and the counter goes to `inited`.
  pub secondary_moves :
      (s : System) (self inited : ℕ) (p : Pc)
      → Inv s
      → self ≢ primary
      → rank primary self < launched (s.pc primary)
      → Primary inited (s.pc primary)
      → Started inited (rank primary self) p
      → ((j : ℕ)
          → j ≢ primary
          → j ≢ self
          → rank primary j < launched (s.pc primary)
          → Started inited (rank primary j) (s.pc j))
      → Inv (record s { inited_cpus = inited; pc = update s.pc self p })
  secondary_moves s self inited p inv other up front at_self at_others = record {
    at_primary = rw (elsewhere s self p other) front;
    calls = rw (elsewhere s self p other) inv.calls;
    idle = λ j ne le.
        let le' : launched (s.pc primary) ≤ rank primary j = rw (elsewhere s self p other) at le in
        let apart : self ≢ j = λ e.
          let up' : rank primary j < launched (s.pc primary) =
            subst (λ x. rank primary x < launched (s.pc primary)) e up in
          absurd (omega arith) in
        rw (update_other s.pc self j p apart) (inv.idle j ne le');
    started = λ j ne lt.
        let lt' : rank primary j < launched (s.pc primary) = rw (elsewhere s self p other) at lt in
        elim (ℕ_discrete self j) [
          | yes e ↦
              subst (λ x. Started inited (rank primary x) (update s.pc self p x)) e
                (rw (update_self s.pc self p) at_self)
          | no d ↦ rw (update_other s.pc self j p d) (at_others j ne (λ e. d (sym e)) lt')
        ];
  }
