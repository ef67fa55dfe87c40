-- ===== src/Kernels/Hello/Elapsed.antt =====
-- The times that examples/hello-kernel/src/main.rs prints.
use axplat_crates.Prelude.{
  ℕ, zero, suc, ◌+◌, ◌*◌, ◌^◌, ◌≤◌, ◌<◌, Bool, some, List, [], ◌∷◌, ◌++◌, map, returns, ◌≡◌, refl,
  arith, length, ap, subst,
}
use axplat_crates.Time.{TimeIf, wall_time, nanos_per_sec}
use axplat_crates.Time.Wait.{busy_wait_ends}
use axplat_crates.Kernels.Hello.{
  Event, hello, arguments, elapsed, all_done, system_off, init_kernel, wait_rounds, main,
}

-- Each time is a second or more after the one before it.
abbrev pub IsSpaced : (before : ℕ) → List ℕ → Type 0
IsSpaced before [] = Unit
IsSpaced before (time ∷ times) = (before + nanos_per_sec ≤ time) × IsSpaced time times

IsSpaced-earlier : (p q : ℕ) (times : List ℕ) → p ≤ q → IsSpaced q times → IsSpaced p times
IsSpaced-earlier p q [] le h = tt
IsSpaced-earlier p q (time ∷ times) le h = (omega (arith, h.0), h.1)

module _ (t : TimeIf) (reads nanos : ℕ → ℕ)
    (converts : (j : ℕ) → t.ticks_to_nanos (reads j) ≡ returns (nanos j))
    (fits : (j : ℕ) → nanos j + t.epochoffset_nanos < 2 ^ 64)
    (ahead : (j : ℕ) → nanos j ≤ nanos (j + 1)) where
  abbrev wall : ℕ → ℕ
  wall j = nanos j + t.epochoffset_nanos

  clock : (j : ℕ) → wall_time t (reads j) ≡ returns (wall j)
  clock j = rw (converts j) (ap returns (omega (arith, fits j)))

  abbrev pub Advances : (k n i : ℕ) → Type 0
  Advances k n i =
      (j : ℕ) → i ≤ j → j ≤ i + n * (k + 3) → nanos j + nanos_per_sec ≤ nanos (j + 1 + k)

  wait_rounds-times :
      (k fuel n i : ℕ) (events : List Event)
      → k < fuel
      → Advances k n i
      → (times : List ℕ) × (wait_rounds t reads fuel n i events
          ≡ returns (some (map elapsed times ++ events)))
        × (length times ≡ n)
        × IsSpaced (nanos i) times
  unfolding wait_rounds
  wait_rounds-times k fuel zero i events enough h = ([], refl, refl, tt)
  wait_rounds-times k fuel (suc n) i events enough h =
      let (m, run, le, e) =
        busy_wait_ends t reads wall clock nanos_per_sec k i fuel (omega (arith, fits i))
          (omega (arith, h i (omega arith) (omega arith))) enough in
      let later : Advances k n (m + 2) = λ j a b. h j (omega (arith, e.from)) (omega (arith, le)) in
      let (times, rest, count, spaced) = wait_rounds-times k fuel n (m + 2) events enough later in
      (
        nanos (m + 1) ∷ times,
        rw (run, converts (m + 1), rest),
        ap suc count,
        (
          omega (arith, e.reached, ahead m),
          IsSpaced-earlier (nanos (m + 1)) (nanos (m + 2)) times
              (subst (λ j. nanos (m + 1) ≤ nanos j) (omega arith) (ahead (m + 1))) spaced,
        ),
      )

  -- hello-kernel ends: where the clock does not go back, and gets a second ahead of any reading
  -- within `k` readings after the next, and waits have fuel for more than `k` rounds, `main` makes
  -- the two or three calls of the initialisation, greets, prints five times of which the first is a
  -- second or more after the start and each other one after the time before it, and shuts down.
  pub main-times :
      (x86_64 : Bool) (cpu_id arg k fuel i : ℕ)
      → k < fuel
      → Advances k 5 i
      → (times : List ℕ) × (main t reads fuel x86_64 cpu_id arg i
          ≡ returns (
              some (
                init_kernel x86_64 cpu_id arg
                ++ hello
                  ∷ arguments cpu_id arg
                  ∷ (map elapsed times ++ all_done ∷ system_off ∷ []))))
        × (length times ≡ 5)
        × IsSpaced (nanos i) times
  unfolding main
  main-times x86_64 cpu_id arg k fuel i enough h =
      let (times, run, count, spaced) =
        wait_rounds-times k fuel 5 i (all_done ∷ system_off ∷ []) enough h in
      (times, rw run, count, spaced)
