-- ===== src/Arm/Gic/Handle.antt =====
-- The order of the calls in `handle_irq` and `send_ipi` of platforms/axplat-arm-peripherals/src/gic.rs.
use axplat_crates.Prelude.{
  ℕ, ◌≡◌, refl, ◌∙◌, Bool, true, false, not, Option, none, some, List, [], ◌∷◌, ◌++◌, if◌then◌else◌,
  Exec, returns, as_u32, append_assoc, append-nil,
}
use axplat_crates.Irq.{HandlerTable, current, other, all_except_current}
use axplat_crates.Arm.Gic.{
  max_irq_count, Ack, Event, ran, eoi, dir, send_sgi, current_cpu, target_list, all_other, GicState,
  irq_num, run_handler, emit, handle_irq, send_ipi,
}

module _ {Handler : Type 0} (handlers : HandlerTable Handler max_irq_count) where
  open handlers use {lookup, handle_result}

  -- The handler of a table's entry as an event.
  abbrev pub runs : Option Handler → List (Event Handler)
  runs none = []
  runs (some h) = ran h ∷ []

  abbrev pub after : GicState handlers → List (Event Handler) → GicState handlers
  after s es = record s { log = s.log ++ es }

  if-ready : {A : Type 0} (x y : A) (b : Bool) → b ≡ true → (if not b then x else y) ≡ y
  if-ready x y b e = rw e

  run_handler-runs :
      (o : Option Handler) (s : GicState handlers) → run_handler handlers o s ≡ after s (runs o)
  run_handler-runs none s = rw append-nil
  run_handler-runs (some h) s = refl

  ending :
      (special eoi_mode_ns : Bool) (ack : Ack) (o : Option Handler) (s : GicState handlers)
      → (let s' = run_handler handlers o s in
          let ended = emit handlers (eoi ack) s' in
          if not special
          then returns (if eoi_mode_ns then emit handlers (dir ack) ended else ended)
          else returns s')
        ≡ returns (
            after s (
              runs o
              ++ (if special then [] else eoi ack ∷ (if eoi_mode_ns then dir ack ∷ [] else []))))
  ending true mode ack o s = rw (run_handler-runs o s, append-nil)
  ending false true ack o s = rw (run_handler-runs o s, append_assoc, append_assoc)
  ending false false ack o s = rw (run_handler-runs o s, append_assoc)

  -- What `handle_irq` calls, in order.
  abbrev pub calls : Bool → Bool → Ack → GicState handlers → List (Event Handler)
  calls special eoi_mode_ns ack s =
      runs (lookup (irq_num handlers ack) s.table)
      ++ (if special then [] else eoi ack ∷ (if eoi_mode_ns then dir ack ∷ [] else []))

  -- After `init_gic`, `handle_irq` runs the handler of the acknowledged interrupt, if it has one,
  -- and then, unless the interrupt is special, ends it: with `eoi`, and with `dir` after it in the
  -- mode that asks for both.
  pub handle_irq_lem :
      (is_special : Ack → Bool) (eoi_mode_ns : Bool) (ack : Ack) (s : GicState handlers)
      → s.trap_op ≡ true
      → handle_irq handlers is_special eoi_mode_ns ack s
        ≡ returns (after s (calls (is_special ack) eoi_mode_ns ack s))
  unfolding handle_irq
  handle_irq_lem is_special eoi_mode_ns ack s ready =
      if-ready _ _ s.trap_op ready
      ∙ rw (handle_result (irq_num handlers ack) s.table)
          (ending (is_special ack) eoi_mode_ns ack (lookup (irq_num handlers ack) s.table) s)

  -- After `init_gic`, where the driver takes the number of the interrupt, `send_ipi` makes one
  -- call, to the current CPU, the given one, or all others.
  pub send_ipi-targets :
      (int_id_sgi : ℕ → Exec ℕ) (irq intid cpu_id cpu_num : ℕ) (s : GicState handlers)
      → s.gic ≡ true
      → int_id_sgi (as_u32 irq) ≡ returns intid
      → (send_ipi handlers int_id_sgi irq (current cpu_id) s
          ≡ returns (after s (send_sgi intid current_cpu ∷ [])))
        × (send_ipi handlers int_id_sgi irq (other cpu_id) s
            ≡ returns (after s (send_sgi intid (target_list (cpu_id ∷ [])) ∷ [])))
        × (send_ipi handlers int_id_sgi irq (all_except_current cpu_id cpu_num) s
            ≡ returns (after s (send_sgi intid all_other ∷ [])))
  unfolding send_ipi
  send_ipi-targets int_id_sgi irq intid cpu_id cpu_num s ready takes =
      (rw (ready, takes), rw (ready, takes), rw (ready, takes))
