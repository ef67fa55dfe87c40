-- ===== src/X86/Irq/Effects.antt =====
-- Start, end of interrupt and IPIs of platforms/axplat-x86-pc/src/apic.rs.
use axplat_crates.Prelude.{
  ℕ, ◌<◌, ◌≡◌, ◌≢◌, refl, Bool, true, false, Option, none, some, List, [], ◌∷◌, ◌++◌, arith,
  if◌then◌else◌, returns, panics, undefined, as_u8, append_assoc, add64,
}
use axplat_crates.Irq.{HandlerTable, other}
use axplat_crates.X86.Irq.{
  max_irq_count, io_apic_base, Event, ran, port_write, lapic_built, lapic_enable, io_apic_new,
  end_of_interrupt, send_ipi_to, raw_apic_id, ApicState, init_primary, init_secondary, handle,
  send_ipi,
}

module _ {Handler : Type 0} (handlers : HandlerTable Handler max_irq_count) where
  open handlers use {lookup, handle_result}

  abbrev pub runs : Option Handler → List (Event Handler)
  runs none = []
  runs (some h) = ran h ∷ []

  abbrev pub after : ApicState handlers → List (Event Handler) → ApicState handlers
  after s es = record s { log = s.log ++ es }

  handle_run :
      (vector : ℕ) (o : Option Handler) (s : ApicState handlers)
      → handlers.handle vector s.table ≡ o
      → s.local_apic ≡ true
      → handle handlers vector s ≡ returns (after s (runs o ++ end_of_interrupt ∷ []))
  unfolding handle
  handle_run vector none s e ready = rw (e, ready)
  handle_run vector (some h) s e ready = rw (e, ready, append_assoc)

  -- After `init_primary`, `handle` runs the handler of the vector, if it has one, and ends the
  -- interrupt after that in either case.
  pub handle-ends :
      (vector : ℕ) (s : ApicState handlers)
      → s.local_apic ≡ true
      → handle handlers vector s
        ≡ returns (after s (runs (lookup vector s.table) ++ end_of_interrupt ∷ []))
  handle-ends vector s ready =
      handle_run vector (lookup vector s.table) s (handle_result vector s.table) ready

  raw_apic_id-distinct :
      (is_x2apic : Bool) (a b : ℕ) → a ≢ b → raw_apic_id is_x2apic a ≢ raw_apic_id is_x2apic b
  unfolding raw_apic_id
  raw_apic_id-distinct true a b h = h
  raw_apic_id-distinct false a b h = omega arith

  -- After `init_primary`, an IPI to one CPU or another of the first 256 goes to APICs of different
  -- numbers.
  pub send_ipi-distinct :
      (irq_num a b : ℕ) (s : ApicState handlers)
      → s.local_apic ≡ true
      → a < 256
      → b < 256
      → a ≢ b
      → (x y : ℕ) × (send_ipi handlers irq_num (other a) s
          ≡ returns (after s (send_ipi_to (as_u8 irq_num) x ∷ [])))
        × (send_ipi handlers irq_num (other b) s
            ≡ returns (after s (send_ipi_to (as_u8 irq_num) y ∷ [])))
        × (x ≢ y)
  unfolding send_ipi
  send_ipi-distinct irq_num a b s ready la lb ne =
      let small_a : as_u8 a ≡ a = omega arith in
      let small_b : as_u8 b ≡ b = omega arith in
      (
        raw_apic_id s.is_x2apic a,
        raw_apic_id s.is_x2apic b,
        rw (small_a, ready),
        rw (small_b, ready),
        raw_apic_id-distinct s.is_x2apic a b ne,
      )

  pub init_secondary_run :
      (s : ApicState handlers)
      → s.local_apic ≡ true
      → init_secondary handlers s ≡ returns (record s { log = s.log ++ lapic_enable ∷ [] })
  unfolding init_secondary
  init_secondary_run s ready = rw ready

  pub init_secondary_early :
      (s : ApicState handlers) → s.local_apic ≡ false → init_secondary handlers s ≡ undefined
  unfolding init_secondary
  init_secondary_early s off = rw off

  -- The first `init_primary` masks both 8259 controllers before it builds and enables the local
  -- APIC and then the IO APIC, and makes both usable; a second one panics.
  pub init_primary_lem :
      (has_x2apic : Bool) (base phys_virt_offset : ℕ) (s : ApicState handlers)
      → s.io_apic ≡ false
      → (t : ApicState handlers) × (init_primary handlers has_x2apic base phys_virt_offset s
          ≡ returns t)
        × (t.local_apic ≡ true)
        × (t.io_apic ≡ true)
        × (t.log
            ≡ s.log
              ++ port_write 0x21 0xff
                ∷ port_write 0xA1 0xff
                ∷ lapic_built (if has_x2apic then none else some (add64 base phys_virt_offset))
                ∷ lapic_enable
                ∷ io_apic_new (add64 io_apic_base phys_virt_offset)
                ∷ [])
        × (init_primary handlers has_x2apic base phys_virt_offset t ≡ panics)
  unfolding init_primary
  init_primary_lem true base offset s fresh =
      let t : ApicState handlers = record s {
        local_apic = true;
        is_x2apic = true;
        io_apic = true;
        log =
            s.log
            ++ port_write 0x21 0xff
              ∷ port_write 0xA1 0xff
              ∷ lapic_built none
              ∷ lapic_enable
              ∷ io_apic_new (add64 io_apic_base offset)
              ∷ [];
      } in
      (
        t,
        rw (fresh, append_assoc, append_assoc, append_assoc, append_assoc),
        refl,
        refl,
        refl,
        refl,
      )
  init_primary_lem false base offset s fresh =
      let t : ApicState handlers = record s {
        local_apic = true;
        is_x2apic = s.is_x2apic;
        io_apic = true;
        log =
            s.log
            ++ port_write 0x21 0xff
              ∷ port_write 0xA1 0xff
              ∷ lapic_built (some (add64 base offset))
              ∷ lapic_enable
              ∷ io_apic_new (add64 io_apic_base offset)
              ∷ [];
      } in
      (
        t,
        rw (fresh, append_assoc, append_assoc, append_assoc, append_assoc),
        refl,
        refl,
        refl,
        refl,
      )
