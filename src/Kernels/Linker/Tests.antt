-- ===== src/Kernels/Linker/Tests.antt =====
-- Linker scripts of examples/*/build.rs.
use axplat_crates.Prelude.{[], ◌∷◌, none, ok, returns, ◌≡◌, refl, ℕ}
use axplat_crates.Kernels.Linker.{write, println, kernel_base, hex_from, smp_gen_linker_script}
use axplat_crates.Prelude.Replace.{replace_on}

smp_gen_linker_script_run :
    smp_gen_linker_script {IoError = ℕ}
      (λ path. none)
      "/smp"
      none
      (ok "at %KERNEL_BASE% for %CPU_NUM%")
      "arm"
    ≡ returns (
        ok (
          write "linker_arm.lds" "at 0xc0010000 for 1"
          ∷ println "cargo:rustc-link-arg=-T/smp/linker_arm.lds"
          ∷ []))
unfolding smp_gen_linker_script kernel_base hex_from replace_on
smp_gen_linker_script_run = refl
