-- ===== src/Kernels/Hello.antt =====
-- The kernel that greets: examples/hello-kernel/src/main.rs, as the calls and the lines that it
-- makes. `reads i` is the counter at its i-th reading.
pub mod Elapsed
mod Tests
use axplat_crates.Prelude.{
  ℕ, zero, suc, ◌+◌, Bool, Option, none, some, List, [], ◌∷◌, ◌++◌, if◌then◌else◌, Exec, returns,
  panics, ◌>>=◌,
}
use axplat_crates.Time.{TimeIf, nanos_per_sec, busy_wait, monotonic_time}

pub data Event : Type 0 where
  init_percpu : (cpu_id : ℕ) → Event
  init_early : (cpu_id arg : ℕ) → Event
  init_later : (cpu_id arg : ℕ) → Event
  hello : Event
  arguments : (cpu_id arg : ℕ) → Event
  elapsed : (time : ℕ) → Event
  all_done : Event
  system_off : Event

-- Only x86_64 needs the first call.
pub init_kernel : (x86_64 : Bool) (cpu_id arg : ℕ) → List Event
init_kernel x86_64 cpu_id arg =
    (if x86_64 then init_percpu cpu_id ∷ [] else [])
    ++ init_early cpu_id arg ∷ init_later cpu_id arg ∷ []

abbrev pub and_more : Event → Option (List Event) → Option (List Event)
and_more e none = none
and_more e (some events) = some (e ∷ events)

module _ (t : TimeIf) (reads : ℕ → ℕ) (fuel : ℕ) where
  -- `n` rounds of the loop, from reading `i` on; `none` if a wait is still spinning after `fuel`
  -- rounds of its own. What comes after the loop is `events`.
  unfoldable pub wait_rounds : (n i : ℕ) → (events : List Event) → Exec (Option (List Event))
  wait_rounds zero i events = returns (some events)
  wait_rounds (suc n) i events = busy_wait t reads nanos_per_sec fuel i >>= λ waited. elim waited [
    | none ↦ returns none
    | some m ↦
        (monotonic_time t (reads (m + 1)) >>= λ now.
        wait_rounds n (m + 2) events >>= λ rest. returns (and_more (elapsed now) rest))
  ]

  abbrev pub after_init : (cpu_id arg i : ℕ) → Exec (Option (List Event))
  unfolding wait_rounds
  after_init cpu_id arg i = wait_rounds 5 i (all_done ∷ system_off ∷ []) >>= λ rest.
      returns (and_more hello (and_more (arguments cpu_id arg) rest))

  abbrev pub append_events : List Event → Option (List Event) → Option (List Event)
  append_events first none = none
  append_events first (some events) = some (first ++ events)

  -- `i` is the first reading after `init_kernel`.
  pub main : (x86_64 : Bool) (cpu_id arg i : ℕ) → Exec (Option (List Event))
  unfolding init_kernel wait_rounds
  main x86_64 cpu_id arg i = after_init cpu_id arg i >>= λ rest.
      returns (append_events (init_kernel x86_64 cpu_id arg) rest)
