-- ===== src/Arm/Pl011.antt =====
-- The console of platforms/axplat-arm-peripherals/src/pl011.rs. Every function takes the lock of the
-- UART for its own calls only, so one call of the driver is one step.
pub mod Laws
mod Tests
use axplat_crates.Prelude.{
  ℕ, zero, suc, Bool, Option, none, some, List, [], ◌∷◌, length, ◌==◌, if◌then◌else◌,
}
use axplat_crates.Console.{Uart, poll_loop}
use axplat_crates.Console.Crlf.{cr, lf}

module _ (uart : Uart) where
  open uart use {World}

  pub do_putchar : ℕ → World → World
  do_putchar c w = if c == lf then uart.putchar lf (uart.putchar cr w) else uart.putchar c w

  pub putchar : ℕ → World → World
  unfolding do_putchar
  putchar c w = do_putchar c w

  pub getchar : World → Option ℕ × World
  getchar w = uart.getchar w

  pub write_bytes : List ℕ → World → World
  unfolding do_putchar
  write_bytes [] w = w
  write_bytes (c ∷ cs) w = write_bytes cs (do_putchar c w)

  -- A round takes a byte and none is taken past the buffer's end, so one round more than the
  -- buffer has bytes is enough.
  pub read_bytes : List ℕ → World → Option (ℕ × List ℕ × World)
  read_bytes bytes w = poll_loop uart (suc (length bytes)) 0 bytes w

  -- `while let Some(c) = getchar()`, for at most `fuel` rounds: `none` while it still runs.
  pub echo_loop : ℕ → World → Option World
  unfolding getchar putchar
  echo_loop zero w = none
  echo_loop (suc fuel) w = elim (getchar w).0 [
    | none ↦ some (getchar w).1
    | some c ↦ echo_loop fuel (putchar c (getchar w).1)
  ]

  -- The two calls of the driver that read and clear the interrupts.
  module _ (is_receive_interrupt : World → Bool) (ack_interrupts : World → World) where
    pub irq_handler : ℕ → World → Option World
    unfolding echo_loop
    irq_handler fuel w =
        let received = is_receive_interrupt w in
        let w' = ack_interrupts w in if received then echo_loop fuel w' else some w'
