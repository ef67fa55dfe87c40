-- ===== src/Arm/Psci.antt =====
-- The power calls of platforms/axplat-arm-peripherals/src/psci.rs. An `i32` is its bit pattern, a
-- number below 2 ^ 32.
pub mod Calls
mod Tests
use axplat_crates.Prelude.{
  ℕ, ◌+◌, ◌-◌, ◌*◌, ◌^◌, Bool, true, false, List, [], ◌∷◌, ◌==◌, ◌&&◌, if◌then◌else◌, Result, ok,
  err, Exec, returns, panics, ◌>>=◌, as_u32,
}

abbrev pub psci_0_2_fn_base : ℕ
psci_0_2_fn_base = 0x8400_0000

abbrev pub psci_0_2_64bit : ℕ
psci_0_2_64bit = 0x4000_0000

abbrev pub psci_0_2_fn_cpu_off : ℕ
psci_0_2_fn_cpu_off = psci_0_2_fn_base + 2

abbrev pub psci_0_2_fn_cpu_on : ℕ
psci_0_2_fn_cpu_on = psci_0_2_fn_base + 3

abbrev pub psci_0_2_fn_system_off : ℕ
psci_0_2_fn_system_off = psci_0_2_fn_base + 8

abbrev pub psci_0_2_fn64_cpu_on : ℕ
psci_0_2_fn64_cpu_on = psci_0_2_fn_base + psci_0_2_64bit + 3

pub data PsciError : Type 0 where
  not_supported : PsciError
  invalid_params : PsciError
  denied : PsciError
  already_on : PsciError
  on_pending : PsciError
  internal_failure : PsciError
  not_present : PsciError
  disabled : PsciError
  invalid_address : PsciError

-- `-n` as an `i32`
abbrev pub minus : ℕ → ℕ
minus n = 2 ^ 32 - n

pub from : ℕ → Exec PsciError
from code =
    if code == minus 1
    then returns not_supported
    else if code == minus 2
    then returns invalid_params
    else if code == minus 3
    then returns denied
    else if code == minus 4
    then returns already_on
    else if code == minus 5
    then returns on_pending
    else if code == minus 6
    then returns internal_failure
    else if code == minus 7
    then returns not_present
    else if code == minus 8
    then returns disabled
    else if code == minus 9
    then returns invalid_address
    else panics

-- The unit type of an `Ok(())`.
abbrev pub Done : Type 0
Done = Unit

-- The two ways to call the firmware, given by its answer: the function's number and three arguments
-- to a result. The text of `init` is its bytes.
pub record Firmware : Type 1 where
  pub World : Type 0
  pub psci_hvc_call : (func arg0 arg1 arg2 : ℕ) → World → ℕ × World
  pub arm_smccc_smc : (func arg0 arg1 arg2 : ℕ) → World → ℕ × World

abbrev pub bytes_equal : List ℕ → List ℕ → Bool
bytes_equal [] [] = true
bytes_equal [] (y ∷ ys) = false
bytes_equal (x ∷ xs) [] = false
bytes_equal (x ∷ xs) (y ∷ ys) = x == y && bytes_equal xs ys

abbrev pub smc_text : List ℕ
smc_text = 115 ∷ 109 ∷ 99 ∷ []

abbrev pub hvc_text : List ℕ
hvc_text = 104 ∷ 118 ∷ 99 ∷ []

-- The new value of `PSCI_METHOD_HVC`.
pub init : List ℕ → Exec Bool
init method =
    if bytes_equal method smc_text
    then returns false
    else if bytes_equal method hvc_text
    then returns true
    else panics

module _ (firmware : Firmware) where
  open firmware use {World}

  -- `psci_method_hvc` is the value of `PSCI_METHOD_HVC`.
  module _ (psci_method_hvc : Bool) where
    abbrev pub answer : (func arg0 arg1 arg2 : ℕ) → World → ℕ × World
    answer func arg0 arg1 arg2 w =
        if psci_method_hvc
        then firmware.psci_hvc_call func arg0 arg1 arg2 w
        else firmware.arm_smccc_smc func arg0 arg1 arg2 w

    pub psci_call : (func arg0 arg1 arg2 : ℕ) → World → Exec (Result Done PsciError × World)
    unfolding from
    psci_call func arg0 arg1 arg2 w =
        let (ret, w') = answer func arg0 arg1 arg2 w in
        let failed = from (as_u32 ret) >>= λ e. returns (err e, w') in
        if ret == 0 then returns (ok tt, w') else failed

    -- The state in which the endless loop that follows the call halts the CPU.
    pub system_off : World → Exec World
    unfolding psci_call
    system_off w = do (res, w') ← psci_call psci_0_2_fn_system_off 0 0 0 w; returns w'

    -- `wide` is `cfg!(target_pointer_width = "64")`. An error is only logged.
    pub cpu_on : (wide : Bool) (target_cpu entry_point arg : ℕ) → World → Exec World
    unfolding psci_call
    cpu_on wide target_cpu entry_point arg w = do
      let fn_num = if wide then psci_0_2_fn64_cpu_on else psci_0_2_fn_cpu_on
      (res, w') ← psci_call fn_num target_cpu entry_point arg w
      returns w'

    pub cpu_off : World → Exec World
    unfolding psci_call
    cpu_off w = do
      let state = 1 * 2 ^ 16
      (res, w') ← psci_call psci_0_2_fn_cpu_off state 0 0 w
      returns w'
