-- ===== src/Kernels/Hello/Tests.antt =====
-- The times of examples/hello-kernel/src/main.rs on a clock of one second a reading, which stops
-- after a hundred.
use axplat_crates.Prelude.{
  ℕ, ◌*◌, min, returns, some, List, [], ◌∷◌, ◌++◌, map, ◌≡◌, refl, arith, false, length,
}
use axplat_crates.Time.{TimeIf, nanos_per_sec, busy_wait, busy_wait_until}
use axplat_crates.Kernels.Hello.{
  hello, arguments, elapsed, all_done, system_off, init_early, init_later, init_kernel, wait_rounds,
  main,
}
use axplat_crates.Kernels.Hello.Elapsed.{main-times, IsSpaced}

abbrev clock : TimeIf
clock = record {
  ticks_to_nanos = λ ticks. returns (ticks * nanos_per_sec);
  nanos_to_ticks = λ nanos. returns nanos;
  epochoffset_nanos = 7;
}

abbrev reads : ℕ → ℕ
reads j = min j 100

main_run :
    main clock reads 10 false 0 9 1
    ≡ returns (
        some (
          init_early 0 9
          ∷ init_later 0 9
          ∷ hello
          ∷ arguments 0 9
          ∷ elapsed 3000000000
          ∷ elapsed 6000000000
          ∷ elapsed 9000000000
          ∷ elapsed 12000000000
          ∷ elapsed 15000000000
          ∷ all_done
          ∷ system_off
          ∷ []))
unfolding main init_kernel wait_rounds busy_wait busy_wait_until
main_run = refl

main-times_example :
    (times : List ℕ) × (main clock reads 10 false 0 9 1
      ≡ returns (
          some (
            init_kernel false 0 9
            ++ hello ∷ arguments 0 9 ∷ (map elapsed times ++ all_done ∷ system_off ∷ []))))
    × (length times ≡ 5)
    × IsSpaced (1 * nanos_per_sec) times
main-times_example =
    main-times clock reads (λ j. min j 100 * nanos_per_sec) (λ j. refl) (λ j. omega arith)
      (λ j. omega arith) false 0 9 0 10 1 (omega arith) (λ j a b. omega arith)
