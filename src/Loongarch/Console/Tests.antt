-- ===== src/Loongarch/Console/Tests.antt =====
-- The theorems on the console of platforms/axplat-loongarch64-qemu-virt on a line for tests.
use axplat_crates.Prelude.{◌≡◌, [], ◌∷◌}
use axplat_crates.Console.Line.{line}
use axplat_crates.Loongarch.Console.{write_bytes, read_bytes}
use axplat_crates.Loongarch.Console.Laws.{write_bytes-newline, read_bytes-pull}

write_bytes-newline_example :
    (write_bytes line (97 ∷ 10 ∷ []) ([], 1 ∷ [])).1 ≡ 1 ∷ 97 ∷ 13 ∷ 10 ∷ []
write_bytes-newline_example = write_bytes-newline line (97 ∷ 10 ∷ []) ([], 1 ∷ [])

read_bytes-pull_example :
    read_bytes line (0 ∷ 1 ∷ 2 ∷ []) (7 ∷ 8 ∷ [], []) ≡ (2, 7 ∷ 8 ∷ 2 ∷ [], ([], []))
read_bytes-pull_example = read_bytes-pull line (0 ∷ 1 ∷ 2 ∷ []) (7 ∷ 8 ∷ [], [])
