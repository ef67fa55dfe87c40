-- ===== src/Time.antt =====
-- Clocks: axplat/src/time.rs. The interface `TimeIf` of a platform, the times read through it and
-- the busy wait. A `TimeValue` is its number of nanoseconds.
pub mod Wait
pub mod Rate
pub mod Ratio
mod Tests
use axplat_crates.Prelude.{
  ℕ, zero, suc, ◌+◌, ◌*◌, ◌^◌, Option, none, some, ltb, leb, if◌then◌else◌, Exec, returns, panics,
  ◌>>=◌, add64,
}

abbrev pub nanos_per_sec : ℕ
nanos_per_sec = 1_000_000_000

abbrev pub nanos_per_millis : ℕ
nanos_per_millis = 1_000_000

-- The conversions, which divide by a value known only at run time, and the epoch offset. The
-- counter itself changes by itself: `current_ticks` is an argument of what reads it.
pub record TimeIf : Type 0 where
  pub ticks_to_nanos : ℕ → Exec ℕ
  pub nanos_to_ticks : ℕ → Exec ℕ
  pub epochoffset_nanos : ℕ

module _ (t : TimeIf) where
  -- At a reading of the counter.
  abbrev pub monotonic_time_nanos : ℕ → Exec ℕ
  monotonic_time_nanos ticks = t.ticks_to_nanos ticks

  abbrev pub monotonic_time : ℕ → Exec ℕ
  monotonic_time ticks = monotonic_time_nanos ticks

  abbrev pub wall_time_nanos : ℕ → Exec ℕ
  wall_time_nanos ticks = do
    nanos ← monotonic_time_nanos ticks
    returns (add64 nanos t.epochoffset_nanos)

  abbrev pub wall_time : ℕ → Exec ℕ
  wall_time ticks = wall_time_nanos ticks

  -- `reads i` is the counter at its i-th reading. The loop reads it from `i` on, for at most `fuel`
  -- rounds; the result is the reading with which it ends, `none` if it is still spinning.
  unfoldable pub busy_wait_until : (ℕ → ℕ) → ℕ → ℕ → ℕ → Exec (Option ℕ)
  busy_wait_until reads deadline zero i = returns none
  busy_wait_until reads deadline (suc fuel) i =
      let rest = busy_wait_until reads deadline fuel (i + 1) in
      wall_time (reads i) >>= λ now. if ltb now deadline then rest else returns (some i)

  -- The largest `Duration`, of 2 ^ 64 - 1 seconds and 999999999 nanoseconds, is one less.
  abbrev pub duration_end : ℕ
  duration_end = 2 ^ 64 * nanos_per_sec

  -- `+` on `Duration` panics on overflow.
  abbrev pub add_duration : ℕ → ℕ → Exec ℕ
  add_duration a b = if leb duration_end (a + b) then panics else returns (a + b)

  unfoldable pub busy_wait : (ℕ → ℕ) → ℕ → ℕ → ℕ → Exec (Option ℕ)
  unfolding busy_wait_until
  busy_wait reads dur fuel i = do
    now ← wall_time (reads i)
    deadline ← add_duration now dur
    busy_wait_until reads deadline fuel (i + 1)
