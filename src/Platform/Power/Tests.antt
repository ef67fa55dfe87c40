-- ===== src/Platform/Power/Tests.antt =====
-- A key that comes at the third poll.
use axplat_crates.Prelude.{
  ℕ, zero, suc, ◌≡◌, refl, true, false, Option, none, some, List, [], ◌∷◌, ◌++◌,
}
use axplat_crates.Console.{Uart}
use axplat_crates.Platform.Power.{port_write, halt, halts, x86_system_off, riscv_cpu_boot}

abbrev poll : ℕ × List ℕ → Option ℕ × (ℕ × List ℕ)
poll (zero, out) = (some 7, (0, out))
poll (suc n, out) = (none, (n, out))

output-poll : (w : ℕ × List ℕ) → (poll w).1.1 ≡ w.1
output-poll (zero, out) = refl
output-poll (suc n, out) = refl

abbrev slow : Uart
slow = record {
  World = ℕ × List ℕ;
  putchar = λ c w. (w.0, w.1 ++ c ∷ []);
  getchar = poll;
  output = λ w. w.1;
  output-putchar = λ c w. refl;
  output-getchar = output-poll;
}

no_hsm : riscv_cpu_boot (λ a. a) (λ a. a) 0x8020_0000 false 1 0x8040_0000 ≡ []
unfolding riscv_cpu_boot
no_hsm = refl

x86_system_off_run :
    (x86_system_off slow true 9 (2, []) ≡ some ((0, []), port_write 0x64 0xfe ∷ halt ∷ halts ∷ []))
    × (x86_system_off slow true 2 (2, []) ≡ none)
unfolding x86_system_off
x86_system_off_run = (refl, refl)
