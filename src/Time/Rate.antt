-- ===== src/Time/Rate.antt =====
-- Clocks with a whole number of nanoseconds to a tick, as axplat/src/time.rs asks of a platform:
-- the laws of their two conversions, and of the wall clock that starts from an epoch.
use axplat_crates.Prelude.{
  ℕ, ◌+◌, ◌-◌, ◌*◌, ◌/◌, ◌≤◌, ◌<◌, ◌≡◌, ap, arith, add64, sub64, mul64, u64_mod,
}

-- Ticks come back from nanoseconds.
pub ticks-nanos :
    (ticks rate : ℕ) → 0 < rate → ticks * rate < u64_mod → mul64 ticks rate / rate ≡ ticks
ticks-nanos ticks rate p h = grind arith

-- The tick for a time is the last one that is not past it.
pub tick_before :
    (nanos rate : ℕ)
    → 0 < rate
    → (nanos / rate * rate ≤ nanos) × (nanos < (nanos / rate + 1) * rate)
tick_before nanos rate p = grind arith

-- The offset is the epoch time less the clock's time `base` when it was read: at the clock's time
-- `now` the wall clock has moved on from the epoch time by the time since then.
pub wall_after :
    (epoch base now : ℕ)
    → base ≤ now
    → now < u64_mod
    → epoch + (now - base) < u64_mod
    → add64 now (sub64 epoch base) ≡ epoch + (now - base)
wall_after epoch base now h l fits = omega arith

elapsed : (start now rate : ℕ) → start ≤ now → now * rate ≡ start * rate + (now - start) * rate
elapsed start now rate h =
    let e : now ≡ start + (now - start) = omega arith in omega (arith, ap (λ (n : ℕ). n * rate) e)

-- The same with the clocks read in ticks.
pub wall_at :
    (epoch rate start now : ℕ)
    → start ≤ now
    → now * rate < u64_mod
    → epoch + (now - start) * rate < u64_mod
    → add64 (mul64 now rate) (sub64 epoch (mul64 start rate)) ≡ epoch + (now - start) * rate
wall_at epoch rate start now h fits wall = omega (arith, elapsed start now rate h)
