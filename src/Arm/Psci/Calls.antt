-- ===== src/Arm/Psci/Calls.antt =====
-- The answers of the firmware, as platforms/axplat-arm-peripherals/src/psci.rs reads them.
use axplat_crates.Prelude.{
  ℕ, ◌<◌, ◌≡◌, ◌≢◌, refl, Bool, true, false, err, returns, panics, arith, ◌>>=◌, ◌==◌, as_u32,
  if◌then◌else◌,
}
use axplat_crates.Arm.Psci.{
  PsciError, not_supported, invalid_params, denied, already_on, on_pending, internal_failure,
  not_present, disabled, invalid_address, minus, from, Firmware, hvc_text, smc_text, init, answer,
  psci_call, cpu_on, psci_0_2_fn64_cpu_on, psci_0_2_fn_cpu_on,
}

-- The codes of the declaration of `PsciError`.
abbrev pub code : PsciError → ℕ
code not_supported = minus 1
code invalid_params = minus 2
code denied = minus 3
code already_on = minus 4
code on_pending = minus 5
code internal_failure = minus 6
code not_present = minus 7
code disabled = minus 8
code invalid_address = minus 9

pub init-hvc : init hvc_text ≡ returns true
unfolding init
init-hvc = refl

pub init-smc : init smc_text ≡ returns false
unfolding init
init-smc = refl

from-code : (e : PsciError) → from (code e) ≡ returns e
unfolding from
from-code not_supported = refl
from-code invalid_params = refl
from-code denied = refl
from-code already_on = refl
from-code on_pending = refl
from-code internal_failure = refl
from-code not_present = refl
from-code disabled = refl
from-code invalid_address = refl

code-pos : (e : PsciError) → code e ≢ 0
code-pos not_supported = omega arith
code-pos invalid_params = omega arith
code-pos denied = omega arith
code-pos already_on = omega arith
code-pos on_pending = omega arith
code-pos internal_failure = omega arith
code-pos not_present = omega arith
code-pos disabled = omega arith
code-pos invalid_address = omega arith

from-unknown : (c : ℕ) → c < minus 9 → from c ≡ panics
unfolding from
from-unknown c h = ground arith

module _ (firmware : Firmware) where
  open firmware use {World}

  -- An answer whose low 32 bits are the code of an error is that error.
  psci_call-error :
      (hvc : Bool) (func arg0 arg1 arg2 : ℕ) (w : World) (e : PsciError)
      → as_u32 (answer firmware hvc func arg0 arg1 arg2 w).0 ≡ code e
      → psci_call firmware hvc func arg0 arg1 arg2 w
        ≡ returns (err e, (answer firmware hvc func arg0 arg1 arg2 w).1)
  unfolding psci_call
  psci_call-error hvc func arg0 arg1 arg2 w e h =
      let r : ℕ = (answer firmware hvc func arg0 arg1 arg2 w).0 in
      let nonzero : (r == 0) ≡ false = ground (arith, code-pos e) in rw (nonzero, h, from-code e)

  -- An answer that is not 0 and whose low 32 bits are no error's code panics.
  psci_call-unknown :
      (hvc : Bool) (func arg0 arg1 arg2 : ℕ) (w : World)
      → (answer firmware hvc func arg0 arg1 arg2 w).0 ≢ 0
      → as_u32 (answer firmware hvc func arg0 arg1 arg2 w).0 < minus 9
      → psci_call firmware hvc func arg0 arg1 arg2 w ≡ panics
  unfolding psci_call
  psci_call-unknown hvc func arg0 arg1 arg2 w nz h =
      let r : ℕ = (answer firmware hvc func arg0 arg1 arg2 w).0 in
      let nonzero : (r == 0) ≡ false = ground arith in rw (nonzero, from-unknown (as_u32 r) h)

  -- After `init` with `hvc` or with `smc`, `cpu_on` makes one call of that conduit, of the function
  -- for the width of the processor, and returns where the firmware answers an error as well.
  cpu_on-init :
      (wide : Bool) (target_cpu entry_point arg : ℕ) (w : World) (e e' : PsciError)
      → as_u32
          (firmware.psci_hvc_call
            (if wide then psci_0_2_fn64_cpu_on else psci_0_2_fn_cpu_on)
            target_cpu
            entry_point
            arg
            w).0
        ≡ code e
      → as_u32
          (firmware.arm_smccc_smc
            (if wide then psci_0_2_fn64_cpu_on else psci_0_2_fn_cpu_on)
            target_cpu
            entry_point
            arg
            w).0
        ≡ code e'
      → ((init hvc_text >>= λ hvc. cpu_on firmware hvc wide target_cpu entry_point arg w)
          ≡ returns
              (firmware.psci_hvc_call
                (if wide then psci_0_2_fn64_cpu_on else psci_0_2_fn_cpu_on)
                target_cpu
                entry_point
                arg
                w).1)
        × ((init smc_text >>= λ hvc. cpu_on firmware hvc wide target_cpu entry_point arg w)
            ≡ returns
                (firmware.arm_smccc_smc
                  (if wide then psci_0_2_fn64_cpu_on else psci_0_2_fn_cpu_on)
                  target_cpu
                  entry_point
                  arg
                  w).1)
  unfolding cpu_on init
  cpu_on-init wide target_cpu entry_point arg w e e' h s = (
    rw (
        psci_call-error true (if wide then psci_0_2_fn64_cpu_on else psci_0_2_fn_cpu_on) target_cpu
          entry_point arg w e h),
    rw (
        psci_call-error false (if wide then psci_0_2_fn64_cpu_on else psci_0_2_fn_cpu_on) target_cpu
          entry_point arg w e' s),
  )
