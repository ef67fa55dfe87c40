-- ===== src/Kernels/Linker.antt =====
-- The linker scripts of the kernels: examples/hello-kernel/build.rs, which examples/irq-kernel/build.rs
-- repeats, and examples/smp-kernel/build.rs. What the file system answers is an argument.
pub mod Base
mod Tests
use Prim.Native.String.{String, ◌++◌ as str_append}
use text.Mathlib.Text.{◌==◌ as str_eq}
use axplat_crates.Prelude.{
  ℕ, zero, suc, ◌/◌, ◌%◌, Option, none, some, List, [], ◌∷◌, if◌then◌else◌, Result, ok, err, Exec,
  returns, panics, ◌>>=◌, get_elem?,
}
use axplat_crates.Platform.Memory.{
  Platform, x86_pc, aarch64_qemu_virt, riscv64_qemu_virt, loongarch64_qemu_virt, arm_qemu_virt,
}
use axplat_crates.Prelude.Replace.{replace, replace_on}
use axplat_crates.Tools.Template.{try_ok}

pub kernel_base : String → Exec ℕ
kernel_base arch =
    if str_eq arch "x86_64"
    then returns 0xffff_8000_0020_0000
    else if str_eq arch "aarch64"
    then returns 0xffff_0000_4020_0000
    else if str_eq arch "riscv64"
    then returns 0xffff_ffc0_8020_0000
    else if str_eq arch "loongarch64"
    then returns 0xffff_0000_8000_0000
    else if str_eq arch "arm"
    then returns 0xC001_0000
    else panics

-- The platform that the kernels take for the target; without one they do not compile.
pub platform_crate : String → Option Platform
platform_crate target_arch =
    if str_eq target_arch "x86_64"
    then some x86_pc
    else if str_eq target_arch "aarch64"
    then some aarch64_qemu_virt
    else if str_eq target_arch "riscv64"
    then some riscv64_qemu_virt
    else if str_eq target_arch "loongarch64"
    then some loongarch64_qemu_virt
    else if str_eq target_arch "arm"
    then some arm_qemu_virt
    else none

-- `{:#x}`, for a number of at most `fuel + 1` digits.
abbrev pub hex_digit : ℕ → String
hex_digit d = elim (get_elem? hex_digits d) [ none ↦ "" | some digit ↦ digit ]
  where
    hex_digits : List String
    hex_digits =
        "0" ∷ "1" ∷ "2" ∷ "3" ∷ "4" ∷ "5" ∷ "6" ∷ "7" ∷ "8" ∷ "9" ∷ "a" ∷ "b" ∷ "c" ∷ "d" ∷ "e"
        ∷ "f" ∷ []

pub hex_from : (fuel : ℕ) → ℕ → String
hex_from zero n = hex_digit (n % 16)
hex_from (suc fuel) n =
    let rest = hex_from fuel (n / 16) in
    if str_eq rest "0" then hex_digit (n % 16) else str_append rest (hex_digit (n % 16))

abbrev pub format_hex : ℕ → String
format_hex n = str_append "0x" (hex_from 15 n)

abbrev pub unwrap_or : Option String → String → String
unwrap_or none other = other
unwrap_or (some s) other = s

-- What a build script does, in order.
pub data Effect : Type 0 where
  write : (path content : String) → Effect
  println : String → Effect

module _ {IoError : Type 0} (write_error : String → Option IoError) (root : String) where
  -- `std::fs::write(&out_fname, ld_content)?` and what follows; the error is that of the write.
  abbrev pub write_script : (arch ld_content : String) → Result (List Effect) IoError
  write_script arch ld_content =
      let out_fname = str_append "linker_" (str_append arch ".lds") in
      elim (write_error out_fname) [
        | some e ↦ err e
        | none ↦ ok (
            write out_fname ld_content
            ∷ println
                (str_append "cargo:rustc-link-arg=-T" (str_append root (str_append "/" out_fname)))
            ∷ [])
      ]

  -- `script` is what reading `linker.lds.S` gives.
  pub gen_linker_script :
      (script : Result String IoError) (arch : String) → Exec (Result (List Effect) IoError)
  unfolding kernel_base hex_from replace_on
  gen_linker_script script arch = try_ok script λ ld_content. do
    base ← kernel_base arch
    returns (write_script arch (replace "%KERNEL_BASE%" (format_hex base) ld_content))

  -- That of smp-kernel, with the variable `AX_CPU_NUM`.
  pub smp_gen_linker_script :
      (ax_cpu_num : Option String) (script : Result String IoError) (arch : String)
      → Exec (Result (List Effect) IoError)
  unfolding kernel_base hex_from replace_on
  smp_gen_linker_script ax_cpu_num script arch = try_ok script λ ld_content. do
    base ← kernel_base arch
    returns (
        write_script arch (
          replace "%CPU_NUM%" (unwrap_or ax_cpu_num "1")
            (replace "%KERNEL_BASE%" (format_hex base) ld_content)))
