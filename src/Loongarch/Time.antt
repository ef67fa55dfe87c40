-- ===== src/Loongarch/Time.antt =====
-- The clock of platforms/axplat-loongarch64-qemu-virt/src/time.rs: the stable counter for ticks, the
-- Loongson7A RTC for the epoch, and the timer of the CPU.
pub mod Laws
pub mod Start
mod Tests
use Prim.Native.Nat.{bit_and}
use axplat_crates.Prelude.{
  ℕ, ◌+◌, ◌-◌, ◌*◌, ◌/◌, ◌^◌, Bool, true, false, not, ◌&&◌, Option, none, some, List, [], ◌∷◌, ◌++◌,
  ltb, ◌==◌, if◌then◌else◌, Exec, returns, panics, ◌>>=◌, sub64, mul64, as_u32, u32_mod,
}
use axplat_crates.Time.{TimeIf, nanos_per_sec, nanos_per_millis}

pub data Event : Type 0 where
  set_init_val : ℕ → Event
  set_periodic : Bool → Event
  set_en : Bool → Event
  irq_set_enable : ℕ → Bool → Event
  write_rtcctrl : ℕ → Event

-- `NANOS_PER_TICK` is a `LazyInit`: its use panics before it has a value, and so does a second value.
pub record TimeState : Type 0 where
  pub nanos_per_tick : Option ℕ
  pub rtc_epochoffset_nanos : ℕ
  pub log : List Event

abbrev pub emit : Event → TimeState → TimeState
emit e s = record s { log = s.log ++ e ∷ [] }

abbrev pub with_rate : Option ℕ → (ℕ → Exec ℕ) → Exec ℕ
with_rate none f = panics
with_rate (some rate) f = f rate

pub ticks_to_nanos : TimeState → ℕ → Exec ℕ
ticks_to_nanos s ticks = with_rate s.nanos_per_tick (λ rate. returns (mul64 ticks rate))

pub nanos_to_ticks : TimeState → ℕ → Exec ℕ
nanos_to_ticks s nanos =
    with_rate s.nanos_per_tick (λ rate. if rate == 0 then panics else returns (nanos / rate))

-- `irq` is the feature, `timer_irq` the number of the configuration.
pub init_percpu : (irq : Bool) (timer_irq : ℕ) → TimeState → TimeState
init_percpu irq timer_irq s =
    if irq
    then emit (irq_set_enable timer_irq true)
        (emit (set_en true) (emit (set_periodic false) (emit (set_init_val 0) s)))
    else s

-- On a `u32`, for a range of less than 32 bits.
pub extract_bits : (value start end : ℕ) → ℕ
extract_bits value start end = bit_and (value / 2 ^ start) (2 ^ (end - start) - 1)

-- `chrono`, which is not part of this repository, turns a date into nanoseconds, where they fit an
-- `i64`; a date that does not exist panics.
abbrev pub Calendar : Type 0
Calendar = (year month day hour minute second nano : ℕ) → Exec (Option ℕ)

abbrev pub set_epoch : Option ℕ → ℕ → TimeState → Exec TimeState
set_epoch none ticks s = returns s
set_epoch (some epoch_time_nanos) ticks s = do
  nanos ← ticks_to_nanos s ticks
  returns (record s { rtc_epochoffset_nanos = sub64 epoch_time_nanos nanos })

-- `toy_high`, `toy_low` and `ticks` are what the two registers and the counter read.
pub init_rtc : Calendar → (toy_high toy_low ticks : ℕ) → TimeState → Exec TimeState
unfolding extract_bits ticks_to_nanos
init_rtc calendar toy_high toy_low ticks s =
    let s' = emit (write_rtcctrl (2 ^ 11 + 2 ^ 8)) s in
    calendar (as_u32 (1900 + toy_high)) (extract_bits toy_low 26 32) (extract_bits toy_low 21 26)
      (extract_bits toy_low 16 21) (extract_bits toy_low 10 16) (extract_bits toy_low 4 10)
      (as_u32 (extract_bits toy_low 0 4 * nanos_per_millis))
    >>= λ epoch. set_epoch epoch ticks s'

-- `freq` is the frequency that the CPU tells, `rtc` the feature.
pub init_early :
    Calendar → (freq : ℕ) (rtc : Bool) (toy_high toy_low ticks : ℕ) → TimeState → Exec TimeState
unfolding init_rtc
init_early calendar freq rtc toy_high toy_low ticks s =
    let s' : TimeState = record s { nanos_per_tick = some (nanos_per_sec / freq) } in
    let with_rtc = init_rtc calendar toy_high toy_low ticks s' in
    if freq == 0
    then panics
    else elim s.nanos_per_tick [ none ↦ if rtc then with_rtc else returns s' | some _ ↦ panics ]

-- `overflow_checks` tells whether a subtraction below zero panics, as in a debug build.
pub set_oneshot_timer :
    (overflow_checks : Bool) (ticks_now deadline_ns : ℕ) → TimeState → Exec TimeState
unfolding nanos_to_ticks
set_oneshot_timer overflow_checks ticks_now deadline_ns s = do
  ticks_deadline ← nanos_to_ticks s deadline_ns
  if overflow_checks && ltb ticks_deadline ticks_now
      then panics
      else returns (emit (set_en true) (emit (set_init_val (sub64 ticks_deadline ticks_now)) s))

abbrev pub time_if : TimeState → TimeIf
time_if s = record {
  ticks_to_nanos = ticks_to_nanos s;
  nanos_to_ticks = nanos_to_ticks s;
  epochoffset_nanos = s.rtc_epochoffset_nanos;
}
