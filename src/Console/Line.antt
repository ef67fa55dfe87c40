-- ===== src/Console/Line.antt =====
-- An instance of the interface `Uart`, for tests: the bytes still to come in, and those sent.
use axplat_crates.Prelude.{ℕ, ◌≡◌, refl, Option, none, some, List, [], ◌∷◌, ◌++◌}
use axplat_crates.Console.{Uart}

abbrev take_byte : List ℕ × List ℕ → Option ℕ × (List ℕ × List ℕ)
take_byte ([], out) = (none, ([], out))
take_byte (c ∷ cs, out) = (some c, (cs, out))

pub output-take_byte : (w : List ℕ × List ℕ) → (take_byte w).1.1 ≡ w.1
output-take_byte ([], out) = refl
output-take_byte (c ∷ cs, out) = refl

abbrev pub line : Uart
line = record {
  World = List ℕ × List ℕ;
  putchar = λ c w. (w.0, w.1 ++ c ∷ []);
  getchar = take_byte;
  output = λ w. w.1;
  output-putchar = λ c w. refl;
  output-getchar = output-take_byte;
}
