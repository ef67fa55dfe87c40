-- ===== src/Boards/Console/Tests.antt =====
-- The theorems on the consoles of the boards on a line for tests.
use axplat_crates.Prelude.{◌≡◌, [], ◌∷◌, some}
use axplat_crates.Console.Line.{line}
use axplat_crates.Boards.Console.{dw_write_bytes, dw_read_bytes, com1_write_bytes, com1_read_bytes}
use axplat_crates.Boards.Console.Laws.{dw_console_lem, com1_console_lem}

dw_console_lem_example :
    ((dw_write_bytes line (97 ∷ 10 ∷ []) (7 ∷ [], [])).1 ≡ 97 ∷ 13 ∷ 10 ∷ [])
    × (dw_read_bytes line (97 ∷ 10 ∷ []) (7 ∷ [], []) ≡ some (1, 7 ∷ 10 ∷ [], ([], [])))
dw_console_lem_example = dw_console_lem line (97 ∷ 10 ∷ []) (7 ∷ [], [])

com1_console_lem_example :
    ((com1_write_bytes line (97 ∷ 10 ∷ []) (7 ∷ [], [])).1 ≡ 97 ∷ 10 ∷ [])
    × (com1_read_bytes line (97 ∷ 10 ∷ []) (7 ∷ [], []) ≡ some (1, 7 ∷ 10 ∷ [], ([], [])))
com1_console_lem_example = com1_console_lem line (97 ∷ 10 ∷ []) (7 ∷ [], [])
