-- ===== src/X86/Irq.antt =====
-- Interrupts of platforms/axplat-x86-pc/src/apic.rs. The calls of the drivers of the local APIC and the
-- IO APIC, which are not part of this repository, and the writes to ports are recorded as events.
-- `IO_APIC` is a `LazyInit`, whose use panics before it has a value; the use of `LOCAL_APIC`
-- before that is undefined behaviour.
pub mod Contract
pub mod Effects
mod Tests
use axplat_crates.Prelude.{
  ℕ, ◌*◌, ◌^◌, Bool, true, false, not, Option, none, some, List, [], ◌∷◌, ◌++◌, ltb, if◌then◌else◌,
  Exec, returns, panics, undefined, ◌>>=◌, as_u8, add64,
}
use axplat_crates.Irq.{IpiTarget, current, other, all_except_current, IrqIf, HandlerTable}

abbrev pub apic_timer_vector : ℕ
apic_timer_vector = 0xf0

abbrev pub io_apic_base : ℕ
io_apic_base = 0xFEC0_0000

abbrev pub max_irq_count : ℕ
max_irq_count = 256

pub data Event (Handler : Type 0) : Type 0 where
  ran : Handler → Event Handler
  port_write : (port value : ℕ) → Event Handler
  enable_irq : ℕ → Event Handler
  disable_irq : ℕ → Event Handler
  lapic_built : (xapic_base : Option ℕ) → Event Handler
  lapic_enable : Event Handler
  io_apic_new : (base : ℕ) → Event Handler
  end_of_interrupt : Event Handler
  send_ipi_self : (vector : ℕ) → Event Handler
  send_ipi_to : (vector apic_id : ℕ) → Event Handler
  send_ipi_all : (vector : ℕ) → Event Handler

-- On a `u32`: the number of a CPU has eight bits.
unfoldable pub raw_apic_id : (is_x2apic : Bool) → ℕ → ℕ
raw_apic_id is_x2apic id_u8 = if is_x2apic then id_u8 else id_u8 * 2 ^ 24

module _ {Handler : Type 0} (handlers : HandlerTable Handler max_irq_count) where
  open handlers use {Table}

  -- `local_apic` and `io_apic` tell whether the two variables hold a value.
  pub record ApicState : Type 0 where
    pub local_apic : Bool
    pub is_x2apic : Bool
    pub io_apic : Bool
    pub table : Table
    pub log : List (Event Handler)

  abbrev pub emit : Event Handler → ApicState → ApicState
  emit e s = record s { log = s.log ++ e ∷ [] }

  -- `apic::set_enable`, and the method that calls it.
  pub set_enable : ℕ → Bool → ApicState → Exec ApicState
  set_enable vector enabled s =
      if ltb vector apic_timer_vector
      then if not s.io_apic
        then panics
        else if enabled
        then returns (emit (enable_irq (as_u8 vector)) s)
        else returns (emit (disable_irq (as_u8 vector)) s)
      else returns s

  -- `IO_APIC.lock()`, `local_apic()`
  abbrev pub with_local_apic : Event Handler → ApicState → Exec ApicState
  with_local_apic e s = if s.local_apic then returns (emit e s) else undefined

  -- `has_x2apic` and `base` are what the CPU reads, `phys_virt_offset` is the platform's.
  pub init_primary : (has_x2apic : Bool) (base phys_virt_offset : ℕ) → ApicState → Exec ApicState
  init_primary has_x2apic base phys_virt_offset s =
      let masked = emit (port_write 0xA1 0xff) (emit (port_write 0x21 0xff) s) in
      let built : ApicState =
        if has_x2apic
        then record (emit (lapic_built none) masked) { is_x2apic = true }
        else emit (lapic_built (some (add64 base phys_virt_offset))) masked in
      let enabled : ApicState = record (emit lapic_enable built) { local_apic = true } in
      let mapped = emit (io_apic_new (add64 io_apic_base phys_virt_offset)) enabled in
      if s.io_apic then panics else returns (record mapped { io_apic = true })

  pub init_secondary : ApicState → Exec ApicState
  init_secondary s = with_local_apic lapic_enable s

  pub register : ℕ → Handler → ApicState → Exec (Bool × ApicState)
  unfolding set_enable
  register vector handler s =
      let (done, t) = handlers.register_handler vector handler s.table in
      let s' : ApicState = record s { table = t } in
      let enabled = set_enable vector true s' >>= λ s''. returns (true, s'') in
      if done then enabled else returns (false, s')

  pub unregister : ℕ → ApicState → Exec (Option Handler × ApicState)
  unfolding set_enable
  unregister vector s = do
    s' ← set_enable vector false s
    let (old, t) = handlers.unregister_handler vector s'.table
    returns (old, record s' { table = t })

  abbrev pub run_handler : Option Handler → ApicState → ApicState
  run_handler none s = s
  run_handler (some h) s = emit (ran h) s

  pub handle : ℕ → ApicState → Exec ApicState
  handle vector s =
      with_local_apic end_of_interrupt (run_handler (handlers.handle vector s.table) s)

  pub send_ipi : ℕ → IpiTarget → ApicState → Exec ApicState
  unfolding raw_apic_id
  send_ipi irq_num (current _) s = with_local_apic (send_ipi_self (as_u8 irq_num)) s
  send_ipi irq_num (other cpu_id) s =
      let apic_id = raw_apic_id s.is_x2apic (as_u8 cpu_id) in
      with_local_apic (send_ipi_to (as_u8 irq_num) apic_id) s
  send_ipi irq_num (all_except_current _ _) s = with_local_apic (send_ipi_all (as_u8 irq_num)) s

  abbrev pub irq_if : IrqIf Handler
  irq_if = record {
    State = ApicState;
    set_enable = set_enable;
    register = register;
    unregister = unregister;
    handle = handle;
    send_ipi = send_ipi;
  }
