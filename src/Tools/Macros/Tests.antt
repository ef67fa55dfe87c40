-- ===== src/Tools/Macros/Tests.antt =====
-- The attributes on the main function of examples/smp-kernel, and on functions that are refused.
use Prim.Native.String.{String}
use axplat_crates.Prelude.{◌≡◌, ◌≢◌, refl, true, false, none, [], ◌∷◌, ok}
use axplat_crates.Tools.Macros.{
  default, type, typed, Qualifiers, ItemFn, compile_error, exported, main, secondary_main, main_msg,
  secondary_msg,
}
use axplat_crates.Tools.Macros.Signatures.{Fits, main-signatures}

abbrev plain : Qualifiers
plain = record {
  constness = false;
  asyncness = false;
  unsafety = false;
  abi = none;
  generics = "";
  variadic = false;
}

abbrev smp_main : ItemFn
smp_main = record {
  qualifiers = plain;
  output = type "!";
  inputs = typed "usize" ∷ typed "usize" ∷ [];
  body = "init_kernel(cpu_id, arg);";
}

abbrev returning : ItemFn
returning = record smp_main { output = default }

returning_refused : main true (ok returning) ≡ compile_error main_msg
unfolding main
returning_refused = refl

wide_refused :
    secondary_main true (ok (record smp_main { inputs = typed "u64" ∷ [] }))
    ≡ compile_error secondary_msg
unfolding secondary_main
wide_refused = refl

-- `async fn main(cpu_id: usize, arg: usize) -> !` is exported.
abbrev async_main : ItemFn
async_main = record smp_main { qualifiers = record plain { asyncness = true } }

main-signatures_example :
    (Fits 2 smp_main → main true (ok async_main) ≡ exported "__axplat_main" async_main)
    × (¬ Fits 2 smp_main → main true (ok async_main) ≡ compile_error main_msg)
    × (Fits 1 smp_main
        → secondary_main true (ok async_main) ≡ exported "__axplat_secondary_main" async_main)
    × (¬ Fits 1 smp_main → secondary_main true (ok async_main) ≡ compile_error secondary_msg)
    × ((name : String)
        → (main false (ok async_main) ≢ exported name async_main)
          × (secondary_main false (ok async_main) ≢ exported name async_main))
main-signatures_example =
    main-signatures smp_main (record plain { asyncness = true }) (tt, (tt, tt))
