-- ===== src/Arm/Pl011/Tests.antt =====
-- The PL011 console on a line that keeps what comes in and what goes out.
use axplat_crates.Prelude.{◌≡◌, refl, true, some, [], ◌∷◌, ◌++◌, arith, if◌then◌else◌}
use axplat_crates.Console.Line.{line}
use axplat_crates.Console.Crlf.{newline, concat_map, without_cr}
use axplat_crates.Arm.Pl011.{getchar, putchar, write_bytes, irq_handler}
use axplat_crates.Arm.Pl011.Laws.{write_bytes_crlf, irq_handler_echoes, Delivers, echoed}

-- "a\n"
write_bytes_crlf_example :
    ((write_bytes line (97 ∷ 10 ∷ []) ([], 1 ∷ [])).1 ≡ 1 ∷ 97 ∷ 13 ∷ 10 ∷ [])
    × (without_cr (97 ∷ 13 ∷ 10 ∷ []) ≡ 97 ∷ 10 ∷ [])
write_bytes_crlf_example = write_bytes_crlf line (97 ∷ 10 ∷ []) ([], 1 ∷ [])

two_bytes-Delivers : Delivers line (97 ∷ 10 ∷ []) (97 ∷ 10 ∷ [], [])
unfolding getchar putchar
two_bytes-Delivers = (refl, (refl, refl))

irq_handler_echoes_example :
    (irq_handler line (λ w. true) (λ w. w) 3 (97 ∷ 10 ∷ [], [])
      ≡ some (echoed line (97 ∷ 10 ∷ []) (97 ∷ 10 ∷ [], [])))
    × ((echoed line (97 ∷ 10 ∷ []) (97 ∷ 10 ∷ [], [])).1
        ≡ [] ++ (if true then concat_map newline (97 ∷ 10 ∷ []) else []))
irq_handler_echoes_example =
    irq_handler_echoes line (λ w. true) (λ w. w) (97 ∷ 10 ∷ []) 3 (97 ∷ 10 ∷ [], []) (λ w. refl)
      two_bytes-Delivers (omega arith)
