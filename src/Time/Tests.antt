-- ===== src/Time/Tests.antt =====
-- The theorems on axplat/src/time.rs at a clock of one tick each 40 ns.
use axplat_crates.Prelude.{ℕ, min, ap, ◌+◌, ◌*◌, ◌/◌, ◌≤◌, ◌≡◌, refl, some, none, arith, returns}
use axplat_crates.Time.{TimeIf, wall_time, busy_wait_until, busy_wait}
use axplat_crates.Time.Wait.{Ended, busy_wait_until_ends, busy_wait_ends, busy_wait_until_spins}

abbrev slow : TimeIf
slow = record {
  ticks_to_nanos = λ ticks. returns (ticks * 40);
  nanos_to_ticks = λ nanos. returns (nanos / 40);
  epochoffset_nanos = 1000;
}

-- The counter goes up by one from reading to reading, up to 50.
abbrev reads : ℕ → ℕ
reads i = min i 50

abbrev wall : ℕ → ℕ
wall i = min i 50 * 40 + 1000

clock : (j : ℕ) → wall_time slow (reads j) ≡ returns (wall j)
clock j = ap returns (omega arith)

wait_runs : busy_wait slow reads 100 10 3 ≡ returns (some 6)
unfolding busy_wait
wait_runs = refl

busy_wait_until_ends_example :
    (m : ℕ) × (busy_wait_until slow reads 1200 6 0 ≡ returns (some m))
    × (m ≤ 0 + 5)
    × Ended wall 1200 0 m
busy_wait_until_ends_example =
    busy_wait_until_ends slow reads wall clock 1200 5 0 6 (omega arith) (omega arith)

busy_wait_ends_example :
    (m : ℕ) × (busy_wait slow reads 100 10 3 ≡ returns (some m))
    × (m ≤ 3 + 1 + 2)
    × Ended wall 1220 4 m
busy_wait_ends_example =
    busy_wait_ends slow reads wall clock 100 2 3 10 (omega arith) (omega arith) (omega arith)

busy_wait_until_spins_example : busy_wait_until slow reads 3001 100 0 ≡ returns none
busy_wait_until_spins_example =
    busy_wait_until_spins slow reads wall clock 3001 100 0 (λ j. omega arith)
