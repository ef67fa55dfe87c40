-- ===== src/Console/Lock.antt =====
-- Several CPUs in `__simple_print` of axplat/src/console.rs at the same time: a CPU waits for
-- `CONSOLE_LOCK`, writes one piece of its text after the other, and frees the lock.
pub mod Atomic
mod Tests
use axplat_crates.Prelude.{
  ℕ, ◌≡◌, Bool, true, false, Option, none, some, List, [], ◌∷◌, ◌++◌, ◌==◌, if◌then◌else◌,
}
use axplat_crates.Console.{ConsoleIf, write_str}

-- Where a CPU stands, with the pieces that it has still to write.
pub data Printer : Type 0 where
  elsewhere : Printer
  locking : (pieces : List (List ℕ)) → Printer
  printing : (pieces : List (List ℕ)) → Printer

abbrev pub update : (ℕ → Printer) → ℕ → Printer → ℕ → Printer
update at i p j = if i == j then p else at j

module _ (c : ConsoleIf) where
  pub record Printers : Type 0 where
    pub held : Bool
    pub at : ℕ → Printer
    pub console : c.State

  -- One step of the CPU `i`, which may call the function with any text.
  pub data Step (s : Printers) : Printers → Type 0 where
    call :
        (i : ℕ) (pieces : List (List ℕ))
        → s.at i ≡ elsewhere
        → Step s (record s { at = update s.at i (locking pieces) })
    lock :
        (i : ℕ) (pieces : List (List ℕ))
        → s.at i ≡ locking pieces
        → s.held ≡ false
        → Step s (record s { held = true; at = update s.at i (printing pieces) })
    write :
        (i : ℕ) (piece : List ℕ) (pieces : List (List ℕ))
        → s.at i ≡ printing (piece ∷ pieces)
        → Step s (record s {
          at = update s.at i (printing pieces);
          console = write_str c piece s.console;
        })
    unlock :
        (i : ℕ)
        → s.at i ≡ printing []
        → Step s (record s { held = false; at = update s.at i elsewhere })

  -- The texts of which a step begins the output: that of a CPU that gets the lock.
  abbrev pub begun : {s t : Printers} → Step s t → List (List (List ℕ))
  begun (call _ _ _) = []
  begun (lock _ pieces _ _) = pieces ∷ []
  begun (write _ _ _ _) = []
  begun (unlock _ _) = []

  abbrev pub start : c.State → Printers
  start w = record { held = false; at = λ _. elsewhere; console = w }

  -- The states that the CPUs reach, with the texts in the order in which they got the lock.
  pub data Reach (w : c.State) : List (List (List ℕ)) → Printers → Type 0 where
    here : Reach w [] (start w)
    next :
        {texts : List (List (List ℕ))} {s t : Printers}
        → Reach w texts s
        → (step : Step s t) → Reach w (texts ++ begun step) t
