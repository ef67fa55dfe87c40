-- ===== src/Loongarch/Console.antt =====
-- The console of platforms/axplat-loongarch64-qemu-virt/src/console.rs, on a 16550 UART. The results of
-- `put` are ignored.
pub mod Laws
mod Tests
use axplat_crates.Prelude.{ℕ, ◌+◌, Option, none, some, List, [], ◌∷◌, ◌==◌, if◌then◌else◌}
use axplat_crates.Console.{Uart}
use axplat_crates.Console.Crlf.{cr, lf}

module _ (uart : Uart) where
  open uart use {World, putchar, getchar}

  abbrev pub put_byte : ℕ → World → World
  put_byte c w = if c == lf then putchar lf (putchar cr w) else putchar c w

  pub write_bytes : List ℕ → World → World
  write_bytes [] w = w
  write_bytes (c ∷ cs) w = write_bytes cs (put_byte c w)

  -- The `for` loop from the byte `i` on: the number that is returned, and the bytes from there.
  pub read_loop : (i : ℕ) → List ℕ → World → ℕ × List ℕ × World
  read_loop i [] w = (i, [], w)
  read_loop i (byte ∷ bytes) w = elim (getchar w).0 [
    | none ↦ (i, byte ∷ bytes, (getchar w).1)
    | some c ↦ (let (n, rest, w') = read_loop (i + 1) bytes (getchar w).1 in (n, c ∷ rest, w'))
  ]

  pub read_bytes : List ℕ → World → ℕ × List ℕ × World
  unfolding read_loop
  read_bytes bytes w = read_loop 0 bytes w
