-- ===== src/Loongarch/Irq.antt =====
-- Interrupts of platforms/axplat-loongarch64-qemu-virt/src/irq.rs. The writes to the registers of
-- the CPU are recorded as events.
pub mod Contract
pub mod Ipi
pub mod Send
mod Tests
use Prim.Native.Nat.{bit_and, bit_or}
use axplat_crates.Prelude.{
  ℕ, zero, suc, ◌+◌, ◌-◌, ◌*◌, ◌/◌, ◌%◌, ◌^◌, Bool, true, false, not, Option, none, some, List, [],
  ◌∷◌, ◌++◌, ◌==◌, if◌then◌else◌, Exec, returns, panics, as_u32, u32_max,
}
use axplat_crates.Irq.{IpiTarget, current, other, all_except_current, IrqIf, HandlerTable}

abbrev pub max_irq_count : ℕ
max_irq_count = 13

-- `TIMER_IRQ` and `IPI_IRQ` of the default configuration.
abbrev pub timer_irq : ℕ
timer_irq = 11

abbrev pub ipi_irq : ℕ
ipi_irq = 12

abbrev pub iocsr_ipi_send_cpu_shift : ℕ
iocsr_ipi_send_cpu_shift = 16

abbrev pub iocsr_ipi_send_blocking : ℕ
iocsr_ipi_send_blocking = 2 ^ 31

-- On a `u32`.
abbrev pub make_ipi_send_value : (cpu_id vector : ℕ) (blocking : Bool) → ℕ
make_ipi_send_value cpu_id vector blocking =
    let value = bit_or (as_u32 (as_u32 cpu_id * 2 ^ iocsr_ipi_send_cpu_shift)) vector in
    if blocking then bit_or value iocsr_ipi_send_blocking else value

-- `u32::trailing_zeros` of a number that is not 0, which has one of 32 bits.
pub zeros_from : ℕ → ℕ → ℕ
zeros_from zero value = 0
zeros_from (suc n) value = if value % 2 == 0 then suc (zeros_from n (value / 2)) else 0

abbrev pub trailing_zeros : ℕ → ℕ
trailing_zeros value = zeros_from 32 value

pub data Event (Handler : Type 0) : Type 0 where
  ran : Handler → Event Handler
  ipi_enable : ℕ → Event Handler
  ipi_clear : ℕ → Event Handler
  ipi_send : ℕ → Event Handler
  clear_timer_interrupt : Event Handler

-- `ecfg.lie` is a set of lines, of which only two are changed here.
pub record Lines : Type 0 where
  pub timer : Bool
  pub ipi : Bool

module _ {Handler : Type 0} (handlers : HandlerTable Handler max_irq_count) where
  open handlers use {Table}

  pub record IrqState : Type 0 where
    pub table : Table
    pub lie : Lines
    pub log : List (Event Handler)

  abbrev pub emit : Event Handler → IrqState → IrqState
  emit e s = record s { log = s.log ++ e ∷ [] }

  pub set_enable : ℕ → Bool → IrqState → IrqState
  set_enable irq_num enabled s =
      if irq_num == timer_irq
      then record s { lie = record s.lie { timer = enabled } }
      else if irq_num == ipi_irq
      then (let s' = emit (ipi_enable (if enabled then u32_max else 0)) s in
          record s' { lie = record s'.lie { ipi = enabled } })
      else s

  pub register : ℕ → Handler → IrqState → Bool × IrqState
  unfolding set_enable
  register irq_num handler s =
      let (done, t) = handlers.register_handler irq_num handler s.table in
      let s' : IrqState = record s { table = t } in
      if done then (true, set_enable irq_num true s') else (false, s')

  pub unregister : ℕ → IrqState → Option Handler × IrqState
  unfolding set_enable
  unregister irq s =
      let s' = set_enable irq false s in
      let (old, t) = handlers.unregister_handler irq s'.table in (old, record s' { table = t })

  abbrev pub run_handler : Option Handler → IrqState → IrqState
  run_handler none s = s
  run_handler (some h) s = emit (ran h) s

  -- `while status != 0`, for at most `fuel` rounds.
  pub ipi_loop : (fuel irq status : ℕ) → IrqState → Option IrqState
  ipi_loop zero irq status s = none
  ipi_loop (suc fuel) irq status s =
      let vector = trailing_zeros status in
      let status' = bit_and status (u32_max - 2 ^ vector) in
      let rest = ipi_loop fuel irq status' (run_handler (handlers.handle irq s.table) s) in
      if status == 0 then some s else rest

  -- `status` is what the status register reads.
  pub handle_ipi : (fuel irq status : ℕ) → IrqState → Option IrqState
  unfolding ipi_loop
  handle_ipi fuel irq status s =
      let looped = ipi_loop fuel irq status (emit (ipi_clear status) s) in
      if status == 0 then some s else looped

  -- The handling of an IPI takes at most 33 rounds, one for each of its 32 bits and one to end.
  pub handle : (status irq : ℕ) → IrqState → Option IrqState
  unfolding handle_ipi
  handle status irq s =
      let ipi = handle_ipi 33 irq status s in
      let s' = if irq == timer_irq then emit clear_timer_interrupt s else s in
      if irq == ipi_irq then ipi else some (run_handler (handlers.handle irq s'.table) s')

  -- `for i in i..i + n` of `AllExceptCurrent`
  pub send_others : ℕ → ℕ → ℕ → IrqState → IrqState
  send_others zero i cpu_id s = s
  send_others (suc n) i cpu_id s =
      send_others n (i + 1) cpu_id
        (if not (i == cpu_id) then emit (ipi_send (make_ipi_send_value i 0 true)) s else s)

  pub send_ipi : ℕ → IpiTarget → IrqState → IrqState
  unfolding send_others
  send_ipi irq_num (current cpu_id) s = emit (ipi_send (make_ipi_send_value cpu_id 0 true)) s
  send_ipi irq_num (other cpu_id) s = emit (ipi_send (make_ipi_send_value cpu_id 0 true)) s
  send_ipi irq_num (all_except_current cpu_id cpu_num) s = send_others cpu_num 0 cpu_id s

  -- A loop that does not end has no result; that of `handle` ends.
  abbrev pub ended : Option IrqState → Exec IrqState
  ended none = panics
  ended (some s) = returns s

  abbrev pub irq_if : (status : ℕ) → IrqIf Handler
  irq_if status = record {
    State = IrqState;
    set_enable = λ irq enabled s. returns (set_enable irq enabled s);
    register = λ irq h s. returns (register irq h s);
    unregister = λ irq s. returns (unregister irq s);
    handle = λ irq s. ended (handle status irq s);
    send_ipi = λ irq target s. returns (send_ipi irq target s);
  }
