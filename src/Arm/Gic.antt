-- ===== src/Arm/Gic.antt =====
-- Interrupts of platforms/axplat-arm-peripherals/src/gic.rs. The calls of the driver
-- `arm_gic_driver`, which is not part of this repository, are recorded as events. `GIC` and `TRAP_OP`
-- are used only after they were initialised: a use before that panics, and so does a second
-- initialisation.
pub mod Contract
pub mod Handle
pub mod Start
mod Tests
use axplat_crates.Prelude.{
  ℕ, Bool, true, false, not, ◌||◌, Option, none, some, List, [], ◌∷◌, ◌++◌, if◌then◌else◌, Exec,
  returns, panics, ◌>>=◌, as_u32,
}
use axplat_crates.Irq.{IpiTarget, current, other, all_except_current, IrqIf, HandlerTable}

abbrev pub max_irq_count : ℕ
max_irq_count = 1024

-- The constructors of `Ack` and of `SGITarget` that the code names.
pub data Ack : Type 0 where
  other_intid : (intid : ℕ) → Ack
  sgi : (intid cpu_id : ℕ) → Ack

pub data SgiTarget : Type 0 where
  current_cpu : SgiTarget
  target_list : List ℕ → SgiTarget
  all_other : SgiTarget

pub data Event (Handler : Type 0) : Type 0 where
  ran : Handler → Event Handler
  set_irq_enable : (intid : ℕ) (enabled : Bool) → Event Handler
  eoi : Ack → Event Handler
  dir : Ack → Event Handler
  send_sgi : (intid : ℕ) → SgiTarget → Event Handler
  gic_init : Event Handler
  init_current_cpu : Event Handler
  set_eoi_mode_ns : Bool → Event Handler

module _ {Handler : Type 0} (handlers : HandlerTable Handler max_irq_count) where
  open handlers use {Table}

  -- `gic` and `trap_op` tell whether the two `LazyInit`s hold a value.
  pub record GicState : Type 0 where
    pub gic : Bool
    pub trap_op : Bool
    pub table : Table
    pub log : List (Event Handler)

  abbrev pub emit : Event Handler → GicState → GicState
  emit e s = record s { log = s.log ++ e ∷ [] }

  -- `GIC.lock()`
  abbrev pub lock : GicState → Exec GicState
  lock s = if s.gic then returns s else panics

  pub set_enable : ℕ → Bool → GicState → Exec GicState
  set_enable irq_num enabled s = do
    s' ← lock s
    returns (emit (set_irq_enable (as_u32 irq_num) enabled) s')

  pub register_handler : ℕ → Handler → GicState → Exec (Bool × GicState)
  unfolding set_enable
  register_handler irq_num handler s =
      let (done, t) = handlers.register_handler irq_num handler s.table in
      let s' : GicState = record s { table = t } in
      let enabled = set_enable irq_num true s' >>= λ s''. returns (true, s'') in
      if done then enabled else returns (false, s')

  pub unregister_handler : ℕ → GicState → Exec (Option Handler × GicState)
  unfolding set_enable
  unregister_handler irq_num s = do
    s' ← set_enable irq_num false s
    let (old, t) = handlers.unregister_handler irq_num s'.table
    returns (old, record s' { table = t })

  abbrev pub irq_num : Ack → ℕ
  irq_num (other_intid intid) = intid
  irq_num (sgi intid _) = intid

  abbrev pub run_handler : Option Handler → GicState → GicState
  run_handler none s = s
  run_handler (some h) s = emit (ran h) s

  -- What the driver answers: what `ack` reads, whether it is special, and the mode of `eoi`.
  module _ (is_special : Ack → Bool) (eoi_mode_ns : Bool) where
    pub handle_irq : Ack → GicState → Exec GicState
    handle_irq ack s =
        if not s.trap_op
        then panics
        else (let s' = run_handler (handlers.handle (irq_num ack) s.table) s in
            let ended = emit (eoi ack) s' in
            if not (is_special ack)
            then returns (if eoi_mode_ns then emit (dir ack) ended else ended)
            else returns s')

  -- `init_once` panics where a value is there.
  pub init_gic : GicState → Exec GicState
  init_gic s =
      if s.gic || s.trap_op
      then panics
      else returns (record s { gic = true; trap_op = true; log = s.log ++ gic_init ∷ [] })

  pub init_gicc : GicState → Exec GicState
  init_gicc s = do s' ← lock s; returns (emit (set_eoi_mode_ns false) (emit init_current_cpu s'))

  -- `IntId::sgi`, which refuses a number that is no SGI's by a panic, is the driver's.
  module _ (int_id_sgi : ℕ → Exec ℕ) where
    pub send_ipi : ℕ → IpiTarget → GicState → Exec GicState
    send_ipi irq (current _) s = do
      s' ← lock s
      intid ← int_id_sgi (as_u32 irq)
      returns (emit (send_sgi intid current_cpu) s')
    send_ipi irq (other cpu_id) s = do
      s' ← lock s
      intid ← int_id_sgi (as_u32 irq)
      returns (emit (send_sgi intid (target_list (cpu_id ∷ []))) s')
    send_ipi irq (all_except_current _ _) s = do
      s' ← lock s
      intid ← int_id_sgi (as_u32 irq)
      returns (emit (send_sgi intid all_other) s')

    -- `ack` is what the driver's `ack` reads in the call of `handle`.
    abbrev pub irq_if : (Ack → Bool) → Bool → Ack → IrqIf Handler
    irq_if is_special eoi_mode_ns ack = record {
      State = GicState;
      set_enable = set_enable;
      register = register_handler;
      unregister = unregister_handler;
      handle = λ unused. handle_irq is_special eoi_mode_ns ack;
      send_ipi = send_ipi;
    }
