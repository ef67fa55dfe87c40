-- ===== src/Console/Lock/Tests.antt =====
-- Two CPUs that print on a console that keeps what it is given.
use axplat_crates.Prelude.{ℕ, ◌≡◌, refl, some, List, [], ◌∷◌, ◌++◌}
use axplat_crates.Console.{ConsoleIf}
use axplat_crates.Console.Lock.{Printers, call, lock, write, unlock, Reach, here, next}
use axplat_crates.Console.Lock.Atomic.{print_all, unlocked, Reach-simple_print}

abbrev kept : ConsoleIf
kept = record {
  State = List ℕ;
  write_bytes = λ bytes w. w ++ bytes;
  read_bytes = λ bytes w. (0, bytes, w);
}

abbrev one : List (List ℕ)
one = (1 ∷ []) ∷ (2 ∷ []) ∷ []

abbrev two : List (List ℕ)
two = (7 ∷ 8 ∷ []) ∷ []

-- CPU 1 asks for the lock while CPU 0 writes.
abbrev contended : (s : Printers kept) × Reach kept [] (one ∷ []) s
contended = (
  _,
  next (next (next (next here (call 0 one refl)) (lock 0 one refl refl)) (call 1 two refl))
      (write 0 (1 ∷ []) ((2 ∷ []) ∷ []) refl),
)

-- Then both finish, CPU 1 last.
abbrev finished : (s : Printers kept) × Reach kept [] (one ∷ two ∷ []) s
finished = (
  _,
  next
      (next
        (next (next (next contended.1 (write 0 (2 ∷ []) [] refl)) (unlock 0 refl))
          (lock 1 two refl refl))
        (write 1 (7 ∷ 8 ∷ []) [] refl))
      (unlock 1 refl),
)

finished_output : finished.0.console ≡ 1 ∷ 2 ∷ 7 ∷ 8 ∷ []
unfolding axplat_crates.Console.write_str
finished_output = refl

Reach-simple_print_example :
    print_all kept (one ∷ two ∷ []) (unlocked kept []) ≡ some (unlocked kept finished.0.console)
Reach-simple_print_example = Reach-simple_print kept finished.1 refl
