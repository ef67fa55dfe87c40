-- ===== src/Console/Crlf.antt =====
-- Newlines on a serial port: what a write puts out where the driver sends `\r\n` for a newline.
use axplat_crates.Prelude.{
  ℕ, ◌≡◌, refl, List, [], ◌∷◌, ◌++◌, ◌==◌, ◌||◌, if◌then◌else◌, append_assoc, append-nil, arith,
}

abbrev pub cr : ℕ
cr = 13

abbrev pub lf : ℕ
lf = 10

-- The bytes sent for one byte: by the PL011 and the 16550, and by the DW UART.
abbrev pub newline : ℕ → List ℕ
newline c = if c == lf then cr ∷ lf ∷ [] else c ∷ []

abbrev pub any_newline : ℕ → List ℕ
any_newline c = if c == cr || c == lf then cr ∷ lf ∷ [] else c ∷ []

abbrev pub concat_map : (ℕ → List ℕ) → List ℕ → List ℕ
concat_map f [] = []
concat_map f (c ∷ cs) = f c ++ concat_map f cs

-- What a reader of the line gets that ignores carriage returns.
abbrev pub without_cr : List ℕ → List ℕ
without_cr [] = []
without_cr (c ∷ cs) = if c == cr then without_cr cs else c ∷ without_cr cs

pub without_cr-concat_map : (cs : List ℕ) → without_cr (concat_map newline cs) ≡ without_cr cs
without_cr-concat_map [] = refl
without_cr-concat_map (c ∷ cs) = ground (arith, without_cr-concat_map cs)

-- A loop that sends `f c` for each byte `c`, one after the other.
pub output-loop :
    {World : Type 0} (output : World → List ℕ) (f : ℕ → List ℕ) (send : ℕ → World → World)
    (loop : List ℕ → World → World)
    → ((w : World) → loop [] w ≡ w)
    → ((c : ℕ) (cs : List ℕ) (w : World) → loop (c ∷ cs) w ≡ loop cs (send c w))
    → ((c : ℕ) (w : World) → output (send c w) ≡ output w ++ f c)
    → (cs : List ℕ) (w : World) → output (loop cs w) ≡ output w ++ concat_map f cs
output-loop output f send loop stop next out [] w = rw (stop w, append-nil)
output-loop output f send loop stop next out (c ∷ cs) w =
    rw (
      next c cs w,
      output-loop output f send loop stop next out cs (send c w),
      out c w,
      append_assoc,
    )
