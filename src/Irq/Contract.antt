-- ===== src/Irq/Contract.antt =====
-- What the documentation of `IrqIf` in axplat/src/irq.rs asks of `register` and `unregister`: that
-- they keep a map from IRQ numbers to handlers.
use axplat_crates.Prelude.{ℕ, ◌≡◌, true, false, Option, none, some, ◌==◌, if◌then◌else◌, returns}
use axplat_crates.Irq.{IrqIf}

-- `lookup` reads the map off the state; `Legal` holds of the IRQ
-- numbers that may be registered, in the states that allow it.
pub record KeepsHandlers {Handler : Type 0} (p : IrqIf Handler) (Legal : ℕ → p.State → Type 0)
    (lookup : ℕ → p.State → Option Handler) : Type 0 where
  pub register_new :
      (irq : ℕ) (h : Handler) (s : p.State)
      → Legal irq s
      → lookup irq s ≡ none
      → (s' : p.State) × (p.register irq h s ≡ returns (true, s'))
        × ((j : ℕ) → lookup j s' ≡ (if irq == j then some h else lookup j s))
  pub register_taken :
      (irq : ℕ) (h old : Handler) (s : p.State)
      → Legal irq s
      → lookup irq s ≡ some old
      → (s' : p.State) × (p.register irq h s ≡ returns (false, s'))
        × ((j : ℕ) → lookup j s' ≡ lookup j s)
  pub unregister_lem :
      (irq : ℕ) (s : p.State)
      → Legal irq s
      → (s' : p.State) × (p.unregister irq s ≡ returns (lookup irq s, s'))
        × ((j : ℕ) → lookup j s' ≡ (if irq == j then none else lookup j s))
