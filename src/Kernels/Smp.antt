-- ===== src/Kernels/Smp.antt =====
-- The start of the CPUs in examples/smp-kernel/src: main.rs, mp.rs and init.rs. CPUs take turns in any
-- order; a turn runs a CPU up to and including its next access of `INITED_CPUS`, or its next call of
-- the platform. What a CPU prints and the interrupts that it takes do not change this state.

pub mod Inv
pub mod Turn
pub mod Barrier
pub mod Live
pub mod Fair
mod Tests
use axplat_crates.Prelude.{
  ℕ, zero, suc, ◌+◌, ◌-◌, ◌*◌, Bool, true, false, not, ◌&&◌, List, [], ◌∷◌, ◌++◌, ltb, ◌==◌,
  if◌then◌else◌, add64,
}

-- Where a CPU stands, with its live variables.
pub data Pc : Type 0 where
  off : Pc
  secondary_init : Pc  -- in `init_kernel_secondary`
  secondary_wait : Pc  -- in the loop on `init_smp_ok` of `secondary_main`
  running : Pc  -- in the last loop of `secondary_main`, with the IRQs enabled
  primary_init : Pc  -- in `init_kernel`
  starting : (i logic_cpu_id : ℕ) → Pc  -- at the head of the loop of `start_secondary_cpus`
  waiting : (i logic_cpu_id : ℕ) → Pc  -- in the loop on `INITED_CPUS` in its body
  irq_init : Pc  -- in `init_irq`, which enables the IRQs of the primary CPU
  counting : Pc  -- before `fetch_add`
  primary_wait : Pc  -- in the loop on `init_smp_ok` of `main`
  pausing : Pc  -- in `busy_wait`
  shut_down : Pc  -- in `system_off`

-- The calls of `cpu_boot` so far, each with the CPU and the top of its stack.
pub record System : Type 0 where
  pub inited_cpus : ℕ
  pub boots : List (ℕ × ℕ)
  pub pc : ℕ → Pc

abbrev pub update : (ℕ → Pc) → ℕ → Pc → ℕ → Pc
update pc i p j = if i == j then p else pc j

-- `cpu_boot` starts a CPU that is off.
abbrev pub power_on : Pc → Pc
power_on off = secondary_init
power_on p = p

-- The stacks follow one another from `stack_base` on, `boot_stack_size` bytes each.
abbrev pub stack_top : (virt_to_phys : ℕ → ℕ) (stack_base boot_stack_size i : ℕ) → ℕ
stack_top virt_to_phys stack_base boot_stack_size i =
    virt_to_phys (add64 stack_base ((i + 1) * boot_stack_size))

abbrev pub goto : ℕ → Pc → System → System
goto self p s = record s { pc = update s.pc self p }

module _ (cpu_num : ℕ) (stack : ℕ → ℕ) where
  abbrev pub init_smp_ok : System → Bool
  init_smp_ok s = s.inited_cpus == cpu_num

  -- One round of the loop of `start_secondary_cpus`, up to the first test of the loop inside it.
  pub start_round : (self i logic_cpu_id : ℕ) → System → System
  start_round self i logic_cpu_id s =
      if not (i == self) && ltb logic_cpu_id (cpu_num - 1)
      then (record s {
        boots = s.boots ++ (i, stack logic_cpu_id) ∷ [];
        pc = update (update s.pc self (waiting i (logic_cpu_id + 1))) i (power_on (s.pc i));
      })
      else goto self (starting (i + 1) logic_cpu_id) s

  pub act : (self : ℕ) → Pc → System → System
  unfolding start_round
  act self off s = s
  act self secondary_init s = record s {
    inited_cpus = add64 s.inited_cpus 1;
    pc = update s.pc self secondary_wait;
  }
  act self secondary_wait s = if init_smp_ok s then goto self running s else s
  act self running s = s
  act self primary_init s = goto self (starting 0 0) s
  act self (starting i logic_cpu_id) s =
      if ltb i cpu_num then start_round self i logic_cpu_id s else goto self irq_init s
  act self (waiting i logic_cpu_id) s =
      if ltb s.inited_cpus logic_cpu_id then s else goto self (starting (i + 1) logic_cpu_id) s
  act self irq_init s = goto self counting s
  act self counting s = record s {
    inited_cpus = add64 s.inited_cpus 1;
    pc = update s.pc self primary_wait;
  }
  act self primary_wait s = if init_smp_ok s then goto self pausing s else s
  act self pausing s = goto self shut_down s
  act self shut_down s = s

  -- CPU `self` takes a turn.
  pub turn : ℕ → System → System
  unfolding act
  turn self s = act self (s.pc self) s

  -- The state after `t` turns, of the CPUs that `schedule` names.
  pub state_at : (primary : ℕ) (schedule : ℕ → ℕ) → ℕ → System
  unfolding turn
  state_at primary schedule zero = record {
    inited_cpus = 0;
    boots = [];
    pc = λ j. if primary == j then primary_init else off;
  }
  state_at primary schedule (suc t) = turn (schedule t) (state_at primary schedule t)
