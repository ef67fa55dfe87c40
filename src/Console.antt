-- ===== src/Console.antt =====
-- Console input and output: axplat/src/console.rs. The interface `ConsoleIf`, the early console
-- behind its lock, and the polling loop in which several platforms read.
pub mod Poll
pub mod Crlf
pub mod Line
pub mod Lock
use axplat_crates.Prelude.{
  Bool, ℕ, zero, suc, ◌+◌, ◌≡◌, Option, none, some, List, [], ◌∷◌, ◌++◌, length, set, ltb,
  if◌then◌else◌, Exec, returns, panics,
}

pub record ConsoleIf : Type 1 where
  pub State : Type 0
  pub write_bytes : List ℕ → State → State
  pub read_bytes : List ℕ → State → ℕ × List ℕ × State

-- A driver of a serial port, which is not part of this repository: `putchar` sends a byte, and
-- `getchar` takes a received byte, if there is one. `output` is what was sent so far.
pub record Uart : Type 1 where
  pub World : Type 0
  pub putchar : ℕ → World → World
  pub getchar : World → Option ℕ × World
  pub output : World → List ℕ
  pub output-putchar : (c : ℕ) (w : World) → output (putchar c w) ≡ output w ++ c ∷ []
  pub output-getchar : (w : World) → output (getchar w).1 ≡ output w

-- `write_str` hands the bytes of one piece of the text to the platform.
module _ (c : ConsoleIf) where
  pub write_str : List ℕ → c.State → c.State
  write_str s w = c.write_bytes s w

  -- `write_fmt` calls `write_str` on each piece of the formatted arguments.
  pub write_fmt : List (List ℕ) → c.State → c.State
  unfolding write_str
  write_fmt [] w = w
  write_fmt (piece ∷ pieces) w = write_fmt pieces (write_str piece w)

  -- `CONSOLE_LOCK` is held or not: a call that finds it held waits, so it does not run. The lock is
  -- free again when the call ends.
  pub record Locked : Type 0 where
    pub held : Bool
    pub console : c.State

  pub simple_print : List (List ℕ) → Locked → Option Locked
  unfolding write_fmt
  simple_print pieces s =
      if s.held
      then none
      else some (record { held = Bool.false; console = write_fmt pieces s.console })

-- `while read_len < bytes.len()`, with `bytes` the buffer. `none` stands for a loop that still runs
-- after `fuel` rounds.
module _ (uart : Uart) where
  open uart use {World, getchar}

  pub poll_loop : ℕ → ℕ → List ℕ → World → Option (ℕ × List ℕ × World)
  poll_loop zero read_len bytes w = none
  poll_loop (suc fuel) read_len bytes w =
      let (c, w') = getchar w in
      let stop = some (read_len, bytes, w') in
      let next : Option (ℕ × List ℕ × World) = elim c [
        | none ↦ stop
        | some b ↦ poll_loop fuel (read_len + 1) (set bytes read_len b) w'
      ] in
      if ltb read_len (length bytes) then next else some (read_len, bytes, w)
