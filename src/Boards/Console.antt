-- ===== src/Boards/Console.antt =====
-- The consoles of platforms/axplat-aarch64-bsta1000b/src/dw_apb_uart.rs and
-- platforms/axplat-x86-pc/src/console.rs.
pub mod Laws
mod Tests
use axplat_crates.Prelude.{
  ℕ, zero, suc, Bool, Option, none, some, List, [], ◌∷◌, length, ◌==◌, ◌||◌, if◌then◌else◌,
}
use axplat_crates.Console.{Uart, poll_loop}
use axplat_crates.Console.Crlf.{cr, lf}

module _ (uart : Uart) where
  open uart use {World}

  pub dw_putchar : ℕ → World → World
  dw_putchar c w =
      if c == cr || c == lf then uart.putchar lf (uart.putchar cr w) else uart.putchar c w

  pub dw_write_bytes : List ℕ → World → World
  unfolding dw_putchar
  dw_write_bytes [] w = w
  dw_write_bytes (c ∷ cs) w = dw_write_bytes cs (dw_putchar c w)

  -- One round more than the buffer has bytes is enough.
  pub dw_read_bytes : List ℕ → World → Option (ℕ × List ℕ × World)
  dw_read_bytes bytes w = poll_loop uart (suc (length bytes)) 0 bytes w

  -- `putchar` of x86-pc sends the byte as it is.
  pub com1_write_bytes : List ℕ → World → World
  com1_write_bytes [] w = w
  com1_write_bytes (c ∷ cs) w = com1_write_bytes cs (uart.putchar c w)

  pub com1_read_bytes : List ℕ → World → Option (ℕ × List ℕ × World)
  com1_read_bytes bytes w = poll_loop uart (suc (length bytes)) 0 bytes w
