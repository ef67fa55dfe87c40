-- ===== src/Riscv/Irq.antt =====
-- Interrupts of platforms/axplat-riscv64-qemu-virt/src/irq.rs. A cause with its highest bit set comes
-- from the CPU: the timer and the software interrupt have a handler slot each. A cause without it
-- is a device's IRQ, which has its handler in the table.
-- The slots are `AtomicPtr`s: null is `none`, and one atomic operation is one step.
pub mod Contract
pub mod Handle
pub mod Ipi
mod Tests
use Prim.Native.Nat.{bit_and}
use axplat_crates.Prelude.{
  ℕ, suc, zero, ◌+◌, ◌%◌, ◌^◌, Bool, true, false, not, Option, none, some, List, [], ◌∷◌, ◌++◌,
  ◌==◌, if◌then◌else◌, Exec, returns, panics, ◌>>=◌,
}
use axplat_crates.Irq.{IpiTarget, current, other, all_except_current, IrqIf, HandlerTable}

abbrev pub intc_irq_base : ℕ
intc_irq_base = 2 ^ 63

abbrev pub s_soft : ℕ
s_soft = intc_irq_base + 1

abbrev pub s_timer : ℕ
s_timer = intc_irq_base + 5

abbrev pub s_ext : ℕ
s_ext = intc_irq_base + 9

abbrev pub max_irq_count : ℕ
max_irq_count = 1024

-- What a call does besides changing the state: it runs a handler, clears the pending software
-- interrupt (`sip`), or asks the SBI for an IPI to the harts of a mask.
pub data Event (Handler : Type 0) : Type 0 where
  ran : Handler → Event Handler
  clear_ssoft : Event Handler
  sbi_send_ipi : (mask : ℕ) → Event Handler

-- `match` on the cause; `EX_IRQ` is the case of a device.
unfoldable pub with_cause {ℓ} : {A : Type ℓ} → ℕ → Exec A → Exec A → Exec A → Exec A → Exec A
with_cause cause timer_op ipi_op ext_op plic_op =
    if cause == s_timer
    then timer_op
    else if cause == s_soft
    then ipi_op
    else if cause == s_ext
    then ext_op
    else if bit_and cause intc_irq_base == 0
    then plic_op
    else panics

module _ {Handler : Type 0} (handlers : HandlerTable Handler max_irq_count) where
  open handlers use {Table, register_handler, unregister_handler}

  -- The static variables, the `sie` bits of the hart, and the events so far.
  pub record IrqState : Type 0 where
    pub timer_handler : Option Handler
    pub ipi_handler : Option Handler
    pub table : Table
    pub ssoft : Bool
    pub stimer : Bool
    pub sext : Bool
    pub log : List (Event Handler)

  abbrev pub emit : Event Handler → IrqState → IrqState
  emit e s = record s { log = s.log ++ e ∷ [] }

  pub init_percpu : IrqState → IrqState
  init_percpu s = record s { ssoft = true; stimer = true; sext = true }

  -- It only warns that it is not implemented.
  pub set_enable : ℕ → Bool → IrqState → Exec IrqState
  set_enable irq enabled s = returns s

  -- `compare_exchange(null, handler).is_ok()`
  abbrev pub claim : Option Handler → Handler → Bool × Option Handler
  claim none h = (true, some h)
  claim (some old) h = (false, some old)

  pub register : ℕ → Handler → IrqState → Exec (Bool × IrqState)
  unfolding with_cause set_enable
  register irq h s =
      with_cause irq
        (let (free, slot) = claim s.timer_handler h in
          returns (free, record s { timer_handler = slot }))
        (let (free, slot) = claim s.ipi_handler h in
          returns (free, record s { ipi_handler = slot }))
        (returns (false, s))
        (let (done, t) = register_handler irq h s.table in
          let s' = record s { table = t } in
          let enabled = set_enable irq true s' >>= λ s''. returns (true, s'') in
          if done then enabled else returns (false, s'))

  pub unregister : ℕ → IrqState → Exec (Option Handler × IrqState)
  unfolding with_cause
  unregister irq s =
      with_cause irq (returns (s.timer_handler, record s { timer_handler = none }))
        (returns (s.ipi_handler, record s { ipi_handler = none })) (returns (none, s))
        (let (old, t) = unregister_handler irq s.table in returns (old, record s { table = t }))

  -- A handler that is there is run.
  abbrev pub run_handler : Option Handler → IrqState → IrqState
  run_handler none s = s
  run_handler (some h) s = emit (ran h) s

  pub handle : ℕ → IrqState → Exec IrqState
  unfolding with_cause
  handle irq s =
      with_cause irq (returns (run_handler s.timer_handler s))
        (returns (emit clear_ssoft (run_handler s.ipi_handler s)))
        (returns (run_handler (handlers.handle 0 s.table) s)) panics

  -- `1 << cpu_id` on a `usize`: a release build shifts by the low six bits.
  abbrev pub hart_mask : ℕ → ℕ
  hart_mask cpu_id = 2 ^ (cpu_id % 64)

  -- `for i in i..i + n` of `AllExceptCurrent`
  pub send_others : ℕ → ℕ → ℕ → IrqState → IrqState
  send_others zero i cpu_id s = s
  send_others (suc n) i cpu_id s =
      send_others n (i + 1) cpu_id
        (if not (i == cpu_id) then emit (sbi_send_ipi (hart_mask i)) s else s)

  -- An error of the SBI call is only logged.
  pub send_ipi : ℕ → IpiTarget → IrqState → Exec IrqState
  unfolding send_others
  send_ipi irq_num (current cpu_id) s = returns (emit (sbi_send_ipi (hart_mask cpu_id)) s)
  send_ipi irq_num (other cpu_id) s = returns (emit (sbi_send_ipi (hart_mask cpu_id)) s)
  send_ipi irq_num (all_except_current cpu_id cpu_num) s = returns (send_others cpu_num 0 cpu_id s)

  abbrev pub irq_if : IrqIf Handler
  irq_if = record {
    State = IrqState;
    set_enable = set_enable;
    register = register;
    unregister = unregister;
    handle = handle;
    send_ipi = send_ipi;
  }
