-- ===== src/Riscv/Console/Tests.antt =====
-- The theorems on the console of platforms/axplat-riscv64-qemu-virt, on consoles that take at most
-- two bytes a call, or none.
use axplat_crates.Prelude.{
  ℕ, ◌≡◌, ◌≤◌, refl, some, none, List, [], ◌∷◌, ◌++◌, length, take, arith, min, append-nil,
}
use axplat_crates.Riscv.Console.{Sbi, write_bytes}
use axplat_crates.Riscv.Console.Write.{write_bytes_lem, write_bytes_spins}

abbrev take_two : List ℕ → List ℕ → ℕ × List ℕ
take_two bytes w = (min (length bytes) 2, w ++ take (min (length bytes) 2) bytes)

take_two_count : (bytes : List ℕ) (w : List ℕ) → (take_two bytes w).0 ≤ length bytes
take_two_count bytes w = omega arith

abbrev narrow : Sbi
narrow = record {
  World = List ℕ;
  console_write = take_two;
  console_read = λ n w. ([], w);
  output = λ w. w;
  write_count = take_two_count;
  output-write = λ bytes w. refl;
  read_count = λ n w. omega arith;
}

abbrev broken : Sbi
broken = record {
  World = List ℕ;
  console_write = λ bytes w. (0, w);
  console_read = λ n w. ([], w);
  output = λ w. w;
  write_count = λ bytes w. omega arith;
  output-write = λ bytes w. rw append-nil;
  read_count = λ n w. omega arith;
}

write_runs : write_bytes narrow 4 (1 ∷ 2 ∷ 3 ∷ 4 ∷ 5 ∷ []) [] ≡ some (1 ∷ 2 ∷ 3 ∷ 4 ∷ 5 ∷ [])
unfolding write_bytes
write_runs = refl

write_bytes_lem_example :
    (w' : List ℕ) × (write_bytes narrow 4 (1 ∷ 2 ∷ 3 ∷ []) (9 ∷ []) ≡ some w')
    × (w' ≡ 9 ∷ 1 ∷ 2 ∷ 3 ∷ [])
write_bytes_lem_example =
    write_bytes_lem narrow 4 (1 ∷ 2 ∷ 3 ∷ []) (9 ∷ []) (λ b w h. omega arith) (omega arith)
      (omega arith)

write_bytes_spins_example : write_bytes broken 100 (1 ∷ []) [] ≡ none
write_bytes_spins_example =
    write_bytes_spins broken 100 (1 ∷ []) [] (λ b w. refl) (omega arith) (omega arith)
