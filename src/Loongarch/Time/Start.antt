-- ===== src/Loongarch/Time/Start.antt =====
-- The rate that platforms/axplat-loongarch64-qemu-virt/src/time.rs keeps.
use axplat_crates.Prelude.{
  ℕ, pos→not-zero, as_u32, ◌*◌, ◌+◌, ◌^◌, ◌<◌, ◌≡◌, refl, Bool, true, false, Option, none, some,
  ◌/◌, ◌==◌, if◌then◌else◌, returns, panics, >>=-returns, Bool-cases, inl, inr, mul64, arith,
}
use axplat_crates.Time.{nanos_per_sec, nanos_per_millis}
use axplat_crates.Loongarch.Time.{
  TimeState, Calendar, set_epoch, init_rtc, init_early, init_percpu, ticks_to_nanos, extract_bits,
  emit, write_rtcctrl,
}

rate-set_epoch :
    (epoch : Option ℕ) (ticks : ℕ) (s t : TimeState)
    → set_epoch epoch ticks s ≡ returns t
    → t.nanos_per_tick ≡ s.nanos_per_tick
rate-set_epoch none ticks s t h = cc
rate-set_epoch (some epoch) ticks s t h =
    let (nanos, _, e) = >>=-returns (ticks_to_nanos s ticks) _ h in cc (e)

rate-init_rtc :
    (calendar : Calendar) (toy_high toy_low ticks : ℕ) (s t : TimeState)
    → init_rtc calendar toy_high toy_low ticks s ≡ returns t
    → t.nanos_per_tick ≡ s.nanos_per_tick
unfolding init_rtc
rate-init_rtc calendar toy_high toy_low ticks s t h =
    let s' = emit (write_rtcctrl (2 ^ 11 + 2 ^ 8)) s in
    let date =
      calendar (as_u32 (1900 + toy_high)) (extract_bits toy_low 26 32) (extract_bits toy_low 21 26)
        (extract_bits toy_low 16 21) (extract_bits toy_low 10 16) (extract_bits toy_low 4 10)
        (as_u32 (extract_bits toy_low 0 4 * nanos_per_millis)) in
    let (epoch, _, e) = >>=-returns date (λ epoch. set_epoch epoch ticks s') h in
    rate-set_epoch epoch ticks s' t e

with_rate : (freq : ℕ) → TimeState → TimeState
with_rate freq s = record s { nanos_per_tick = some (nanos_per_sec / freq) }

at_once :
    (calendar : Calendar) (freq : ℕ) (rtc : Bool) (toy_high toy_low ticks : ℕ) (s t : TimeState)
    → (if rtc
        then init_rtc calendar toy_high toy_low ticks (with_rate freq s)
        else returns (with_rate freq s))
      ≡ returns t
    → t.nanos_per_tick ≡ some (nanos_per_sec / freq)
unfolding with_rate
at_once calendar freq true toy_high toy_low ticks s t h =
    rate-init_rtc calendar toy_high toy_low ticks (with_rate freq s) t h
at_once calendar freq false toy_high toy_low ticks s t h = cc

pub ticks_to_nanos-rate :
    (s : TimeState) (rate ticks : ℕ)
    → s.nanos_per_tick ≡ some rate
    → ticks_to_nanos s ticks ≡ returns (mul64 ticks rate)
unfolding ticks_to_nanos
ticks_to_nanos-rate s rate ticks e = rw e

pub ticks_to_nanos-early :
    (s : TimeState) (ticks : ℕ) → s.nanos_per_tick ≡ none → ticks_to_nanos s ticks ≡ panics
unfolding ticks_to_nanos
ticks_to_nanos-early s ticks e = rw e

pub init_early-again :
    (calendar : Calendar) (freq : ℕ) (rtc : Bool) (toy_high toy_low ticks rate : ℕ) (s : TimeState)
    → s.nanos_per_tick ≡ some rate
    → init_early calendar freq rtc toy_high toy_low ticks s ≡ panics
unfolding init_early
init_early-again calendar freq rtc toy_high toy_low ticks rate s e = ground (arith, e)

pub rate-init_percpu :
    (irq : Bool) (timer_irq : ℕ) (s : TimeState)
    → (init_percpu irq timer_irq s).nanos_per_tick ≡ s.nanos_per_tick
unfolding init_percpu
rate-init_percpu true timer_irq s = refl
rate-init_percpu false timer_irq s = refl

-- Where the first `init_early` returns, the rate is that of the frequency.
pub rate-init_early :
    (calendar : Calendar) (freq : ℕ) (rtc : Bool) (toy_high toy_low ticks : ℕ) (s t : TimeState)
    → s.nanos_per_tick ≡ none
    → init_early calendar freq rtc toy_high toy_low ticks s ≡ returns t
    → t.nanos_per_tick ≡ some (nanos_per_sec / freq)
unfolding init_early with_rate
rate-init_early calendar freq rtc toy_high toy_low ticks s t fresh h =
    elim (Bool-cases (freq == 0)) [
      | inl z ↦ cc (rw z at h)
      | inr nz ↦ at_once calendar freq rtc toy_high toy_low ticks s t (rw (nz, fresh) at h)
    ]

-- Without the RTC the first `init_early` with a frequency returns.
pub init_early-no_rtc :
    (calendar : Calendar) (freq toy_high toy_low ticks : ℕ) (s : TimeState)
    → 0 < freq
    → s.nanos_per_tick ≡ none
    → init_early calendar freq false toy_high toy_low ticks s
      ≡ returns (record s { nanos_per_tick = some (nanos_per_sec / freq) })
unfolding init_early
init_early-no_rtc calendar freq toy_high toy_low ticks s pos fresh =
    rw (pos→not-zero freq pos, fresh)
