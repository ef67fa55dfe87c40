-- ===== src/Boards/Reset/Bootmode.antt =====
-- The bits that platforms/axplat-aarch64-bsta1000b/src/misc.rs takes for the boot mode.
use Prim.Native.Nat.{bit_and}
use axplat_crates.Prelude.{ℕ, ◌/◌, ◌%◌, ◌^◌, ◌≡◌, ◌↔◌, ◌∙◌, arith}
use axplat_crates.Prelude.Masks.{bit_and-ones}
use axplat_crates.Boards.Reset.{get_bootmode}

-- The boot mode is that of the bits 27 and 26 exactly where bit 28 is not set.
get_bootmode-bits :
    (value : ℕ) → (get_bootmode value ≡ value / 2 ^ 26 % 4) ↔ (value / 2 ^ 28 % 2 ≡ 0)
unfolding get_bootmode
get_bootmode-bits value =
    let taken : bit_and (value / 2 ^ 26) 7 ≡ value / 2 ^ 26 % 8 = bit_and-ones 3 (value / 2 ^ 26) in
    (λ e. omega arith, λ e. taken ∙ omega arith)
