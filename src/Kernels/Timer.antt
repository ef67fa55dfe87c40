-- ===== src/Kernels/Timer.antt =====
-- The periodic timer of the example kernels: examples/irq-kernel/src/irq.rs, with its test, and
-- examples/smp-kernel/src/irq.rs, where the next deadline is a variable of each CPU. Times are in
-- nanoseconds. `armed` is the deadlines given to `set_oneshot_timer` so far.
pub mod Laws
mod Tests
use axplat_crates.Prelude.{
  ℕ, zero, suc, ◌+◌, ◌*◌, ◌/◌, Exec, returns, panics, List, [], ◌∷◌, ◌++◌, ltb, leb, ◌==◌,
  if◌then◌else◌, add64,
}
use axplat_crates.Time.{nanos_per_sec}

abbrev pub ticks_per_sec : ℕ
ticks_per_sec = 100

-- `PERIODIC_INTERVAL_NANOS` of each kernel.
abbrev pub interval_nanos : ℕ
interval_nanos = nanos_per_sec / ticks_per_sec

abbrev pub smp_interval_nanos : ℕ
smp_interval_nanos = nanos_per_sec

pub record TimerState : Type 0 where
  pub irq_counter : ℕ
  pub next_deadline : ℕ
  pub armed : List ℕ

abbrev pub deadline_from : (interval now next_deadline : ℕ) → ℕ
deadline_from interval now next_deadline =
    if leb next_deadline now then add64 now interval else next_deadline

-- The handler of the timer, which reads the clock at `now_ns`.
pub update_timer : (now_ns : ℕ) → TimerState → TimerState
update_timer now_ns s =
    let deadline = deadline_from interval_nanos now_ns s.next_deadline in
    record {
      irq_counter = add64 s.irq_counter 1;
      next_deadline = add64 deadline interval_nanos;
      armed = s.armed ++ deadline ∷ [];
    }

-- The state after `k` interrupts, of which the i-th reads `nows i`.
pub after : (nows : ℕ → ℕ) → ℕ → TimerState
unfolding update_timer
after nows zero = record { irq_counter = 0; next_deadline = 0; armed = [] }
after nows (suc k) = update_timer (nows k) (after nows k)

abbrev pub test_seconds : ℕ
test_seconds = 5

-- The end of `test_irq`, with what `irq_count` reads.
pub test_irq : ℕ → Exec (Unit {0})
test_irq irq_count =
    let irq_min_count = ticks_per_sec * test_seconds in
    if ltb irq_count irq_min_count then panics else returns tt

-- Each CPU has its own deadline, and its own timer.
pub record SmpTimers : Type 0 where
  pub next_deadline : ℕ → ℕ
  pub armed : ℕ → List ℕ

pub smp_update_timer : (cpu now_ns : ℕ) → SmpTimers → SmpTimers
smp_update_timer cpu now_ns s =
    let deadline = deadline_from smp_interval_nanos now_ns (s.next_deadline cpu) in
    record {
      next_deadline =
          λ c. if cpu == c then add64 deadline smp_interval_nanos else s.next_deadline c;
      armed = λ c. if cpu == c then s.armed c ++ deadline ∷ [] else s.armed c;
    }
