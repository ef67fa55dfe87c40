-- ===== src/Platform/Power/Laws.antt =====
-- The loop in which platforms/axplat-x86-pc/src/power.rs waits for a key ends with one.
use axplat_crates.Prelude.{ℕ, zero, suc, ◌<◌, ◌≡◌, refl, true, none, some, [], ◌∷◌, arith}
use axplat_crates.Console.{Uart}
use axplat_crates.Platform.Power.{port_write, halt, halts, wait_for_key, x86_system_off}

module _ (uart : Uart) where
  open uart use {World, getchar}

  -- The console after `k` polls.
  abbrev polled : ℕ → World → World
  polled zero w = w
  polled (suc k) w = polled k (getchar w).1

  wait_for_key-polled :
      (k fuel : ℕ) (w : World) {c : ℕ}
      → ((i : ℕ) → i < k → (getchar (polled i w)).0 ≡ none)
      → (getchar (polled k w)).0 ≡ some c
      → k < fuel
      → wait_for_key uart fuel w ≡ some (polled (suc k) w)
  unfolding wait_for_key
  wait_for_key-polled k zero w before here enough = absurd (omega arith)
  wait_for_key-polled zero (suc fuel) w before here enough = rw (here, wait_for_key)
  wait_for_key-polled (suc k) (suc fuel) w before here enough =
      rw (before 0 (omega arith), wait_for_key)
        (wait_for_key-polled k fuel (getchar w).1 (λ i lt. before (suc i) (omega arith)) here
          (omega arith))

  still_waits :
      (k : ℕ) (w : World)
      → ((i : ℕ) → i < k → (getchar (polled i w)).0 ≡ none)
      → wait_for_key uart k w ≡ none
  unfolding wait_for_key
  still_waits zero w before = refl
  still_waits (suc k) w before =
      rw (before 0 (omega arith), wait_for_key)
        (still_waits k (getchar w).1 (λ i lt. before (suc i) (omega arith)))

  -- With the feature `reboot-on-system-off`, and `k` polls of the console that find nothing before
  -- one that finds a byte, `system_off` ends its loop after that poll, with fuel for `k + 1` rounds,
  -- and asks for the reboot then and only then: while no poll finds a byte it waits.
  x86_system_off-reboots :
      (k fuel : ℕ) (w : World) {c : ℕ}
      → ((i : ℕ) → i < k → (getchar (polled i w)).0 ≡ none)
      → (getchar (polled k w)).0 ≡ some c
      → k < fuel
      → (x86_system_off uart true fuel w
          ≡ some (polled (suc k) w, port_write 0x64 0xfe ∷ halt ∷ halts ∷ []))
        × (x86_system_off uart true k w ≡ none)
  unfolding x86_system_off
  x86_system_off-reboots k fuel w before here enough = (
    rw (wait_for_key-polled k fuel w before here enough, x86_system_off),
    rw (still_waits k w before, x86_system_off),
  )
