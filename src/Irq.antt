-- ===== src/Irq.antt =====
-- Interrupt handling: axplat/src/irq.rs. The targets of an inter-processor interrupt, the
-- interface `IrqIf` of a platform, and the table of handlers that the platforms keep.
pub mod Contract
pub mod Table
use axplat_crates.Prelude.{
  ℕ, ◌≤◌, ◌≡◌, Bool, Option, none, some, ◌&&◌, ltb, ◌==◌, if◌then◌else◌, Exec,
}

pub data IpiTarget : Type 0 where
  current : (cpu_id : ℕ) → IpiTarget
  other : (cpu_id : ℕ) → IpiTarget
  all_except_current : (cpu_id cpu_num : ℕ) → IpiTarget

-- The trait, over the state of the platform. A call may panic.
pub record IrqIf (Handler : Type 0) : Type 1 where
  pub State : Type 0
  pub set_enable : ℕ → Bool → State → Exec State
  pub register : ℕ → Handler → State → Exec (Bool × State)
  pub unregister : ℕ → State → Exec (Option Handler × State)
  pub handle : ℕ → State → Exec State
  pub send_ipi : ℕ → IpiTarget → State → Exec State

abbrev pub is_none {ℓ} : {A : Type ℓ} → Option A → Bool
is_none none = Bool.true
is_none (some _) = Bool.false

-- `handler_table::HandlerTable<N>`, which is not part of this repository: its operations, and what
-- its documentation says of them. `lookup` is the handler registered for an event. `handle` gives
-- the handler that the call runs, `none` where it returns `false`.
pub record HandlerTable (Handler : Type 0) (capacity : ℕ) : Type 1 where
  pub Table : Type 0
  pub lookup : ℕ → Table → Option Handler
  pub register_handler : ℕ → Handler → Table → Bool × Table
  pub unregister_handler : ℕ → Table → Option Handler × Table
  pub handle : ℕ → Table → Option Handler
  pub register_result :
      (i : ℕ) (h : Handler) (t : Table)
      → (register_handler i h t).0 ≡ (ltb i capacity && is_none (lookup i t))
  pub lookup-register :
      (i j : ℕ) (h : Handler) (t : Table)
      → lookup j (register_handler i h t).1
        ≡ (if ltb i capacity && is_none (lookup i t) && i == j then some h else lookup j t)
  pub unregister_result : (i : ℕ) (t : Table) → (unregister_handler i t).0 ≡ lookup i t
  pub lookup-unregister :
      (i j : ℕ) (t : Table)
      → lookup j (unregister_handler i t).1 ≡ (if i == j then none else lookup j t)
  pub handle_result : (i : ℕ) (t : Table) → handle i t ≡ lookup i t
  pub out_of_range : (i : ℕ) (t : Table) → capacity ≤ i → lookup i t ≡ none
