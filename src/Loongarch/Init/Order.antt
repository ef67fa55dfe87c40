-- ===== src/Loongarch/Init/Order.antt =====
-- What the initialisation of platforms/axplat-loongarch64-qemu-virt leaves.
use axplat_crates.Prelude.{
  ℕ, ◌≡◌, ◌∙◌, Bool, true, none, some, Exec, returns, panics, mul64, ◌/◌, >>=-returns, ap,
}
use axplat_crates.Irq.{HandlerTable}
use axplat_crates.Time.{nanos_per_sec}
use axplat_crates.Loongarch.Irq.{max_irq_count, timer_irq, ipi_irq, set_enable}
use axplat_crates.Loongarch.Time
use axplat_crates.Loongarch.Time.{TimeState, Calendar, ticks_to_nanos, init_percpu}
use axplat_crates.Loongarch.Init.{LoongarchState, init_early, init_later, init_later_secondary}
use axplat_crates.Loongarch.Time.Start.{
  rate-init_early, ticks_to_nanos-rate, ticks_to_nanos-early, init_early-again, rate-init_percpu,
}
use axplat_crates.Loongarch.Irq.Contract.{switch, lie-set_enable}

module _ {Handler : Type 0} (handlers : HandlerTable Handler max_irq_count) (calendar : Calendar)
    (freq : ℕ) (rtc : Bool) (toy_high toy_low : ℕ) where
  abbrev early : ℕ → LoongarchState handlers → Exec (LoongarchState handlers)
  early = init_early handlers calendar freq rtc toy_high toy_low

  -- Before `init_early` the clock cannot be read. Where `init_early` returns, whatever the RTC holds, the
  -- clock counts the nanoseconds of a tick at the CPU's frequency, and a second `init_early` panics.
  -- `init_later` after it, as well as `init_later_secondary`, leaves the clock so and switches both
  -- the line of the timer and that of the IPI on.
  init_early-init_later_loongarch :
      (start now : ℕ) (s t : LoongarchState handlers)
      → s.time.nanos_per_tick ≡ none
      → early start s ≡ returns t
      → (ticks_to_nanos s.time now ≡ panics)
        × (ticks_to_nanos (init_later handlers t).time now
            ≡ returns (mul64 now (nanos_per_sec / freq)))
        × (early now (init_later handlers t) ≡ panics)
        × ((init_later handlers t).irq.lie ≡ record { timer = true; ipi = true })
        × ((init_later_secondary handlers t).irq.lie ≡ record { timer = true; ipi = true })
  unfolding init_early init_later init_later_secondary
  init_early-init_later_loongarch start now s t fresh run =
      let (time, ran, same) =
        >>=-returns (Time.init_early calendar freq rtc toy_high toy_low start s.time) _ run in
      let rate : t.time.nanos_per_tick ≡ some (nanos_per_sec / freq) =
        rate-init_early calendar freq rtc toy_high toy_low start s.time t.time fresh (cc) in
      let later_rate = rate-init_percpu true timer_irq t.time ∙ rate in
      (
        ticks_to_nanos-early s.time now fresh,
        ticks_to_nanos-rate (init_percpu true timer_irq t.time) (nanos_per_sec / freq) now
            later_rate,
        rw (
            init_early-again calendar freq rtc toy_high toy_low now (nanos_per_sec / freq)
              (init_percpu true timer_irq t.time) later_rate),
        both,
        both,
      )
    where
      both :
          (set_enable handlers ipi_irq true (set_enable handlers timer_irq true t.irq)).lie
          ≡ record { timer = true; ipi = true }
      both =
          lie-set_enable handlers ipi_irq true (set_enable handlers timer_irq true t.irq)
          ∙ ap (switch handlers ipi_irq true) (lie-set_enable handlers timer_irq true t.irq)
