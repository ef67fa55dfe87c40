-- ===== src/Lib.antt =====
-- A model of the axplat crates: the hardware abstraction layer that kernels of the ArceOS family
-- boot on. The crate `axplat` (axplat/src) declares the interfaces between a kernel and a platform:
-- memory (MemIf), interrupts (IrqIf), clock (TimeIf), console (ConsoleIf), power (PowerIf) and
-- initialisation (InitIf). Each platform under platforms/
-- implements them, the ARM ones through the drivers of platforms/axplat-arm-peripherals.
--
-- Which file models what:
--   Mem        axplat/src/mem.rs: regions, `total_ram_size`, `check_sorted_ranges_overlap` and
--              `ranges_difference`, with the sets of addresses they stand for.
--   Irq        axplat/src/irq.rs: `IpiTarget` and `IrqIf`. Irq/Contract.antt states what the interface
--              asks of `register` and `unregister`, and every implementation is proved to keep it:
--              Riscv/Irq, Loongarch/Irq, X86/Irq (apic.rs) and Arm/Gic (gic.rs).
--   Time       axplat/src/time.rs: the conversions, the wall clock, `busy_wait`. The clocks of the
--              platforms are Riscv/Time, Loongarch/Time, X86/Time and Arm/Timer (generic_timer.rs and
--              pl031.rs), each with its `time_if`.
--   Console    axplat/src/console.rs, and the loop in which several platforms read. The consoles are
--              Riscv/Console (the SBI), Loongarch/Console, Arm/Pl011, Boards/Console (x86-pc, bsta1000b);
--              Boards/Reset is misc.rs of the bsta1000b.
--              Console/Lock has CPUs that print at the same time.
--   Arm/Psci   psci.rs: the calls of the firmware. Boards/Start has the platforms that start CPUs with
--              it, or by a spin table; X86/Mp the startup page and the interrupts of x86-pc.
--   Arm/Init   platforms/*/src/init.rs of the five ARM platforms, over the states of the drivers, and
--              X86/Init, Loongarch/Init and Riscv/Init those of the others. The modules named Order show
--              that the order of their calls is the one that the drivers ask for.
--   X86/Mem    the memory map that the boot loader of x86-pc tells.
--   Platform   platforms/*/src/mem.rs: the layout of memory of all eight platforms and the linear map;
--              platforms/*/src/boot.rs: the page tables at boot, and what they map; Platform/Power:
--              platforms/*/src/power.rs, and mp.rs of loongarch64-qemu-virt.
--   Kernels    examples/smp-kernel (Kernels/Smp): the start of the CPUs and their barrier, as turns of
--              the CPUs in any order; examples/irq-kernel and smp-kernel (Kernels/Timer): the timer;
--              examples/hello-kernel (Kernels/Hello); examples/*/build.rs (Kernels/Linker).
--   Tools      axplat-macros (Tools/Macros); cargo-axplat: `info` (Tools/Info), the commands of cargo
--              that `add` and `new` run (Tools/Commands), the files that `new` writes (Tools/Template), and
--              the build script that lists them (Tools/Build), and `main` (Tools/Cli).
--   Prelude    lists, results, machine words and `str::replace`, and the laws of bitwise operations.
--
-- State is passed explicitly: a record holds the static variables of a module, and a list of events
-- the calls that it makes of the hardware or of a driver, in order. A call that can panic, or whose
-- behaviour is undefined in some state, gives an `Exec`; a lock is held for a single step. Numbers are natural numbers with their wrap-around
-- written out, as in a release build; where a debug build differs, that is an argument.
--
-- What is outside this repository is an argument of the model: the handler table, the SBI, the UART
-- drivers, ratios, the calendar and the firmware, with the documented laws that the proofs use. The
-- modules named Tests evaluate the model at concrete inputs, with instances of these interfaces.
--
-- Loops without a bound of their own take fuel, and a theorem says how much is enough: the bytes to
-- write and one more for the SBI console, the size of the buffer and one more for reading, 33 rounds
-- for the 32 bits of a pending IPI, the bytes on the line and one more for the echo, the bytes of a
-- text for `str::replace`. `busy_wait_until` is given the readings of the clock, and needs as many
-- rounds as readings until the deadline.
--
-- A CPU of smp-kernel takes a turn up to its next access of shared memory; a schedule, a function from
-- the time to a CPU, is any order of the turns. CPUs that print take the steps of a relation.
--
-- Not modelled: assembly at the entry points, the registers that the drivers and the trap vectors set
-- up, the calls of power.rs that only forward, and the formats of what the kernels print. The parsers
-- of the procedural macros and of the command line are outside this repository.
pub mod Prelude
pub mod Mem
pub mod Irq
pub mod Time
pub mod Console
pub mod Arm
pub mod Riscv
pub mod Loongarch
pub mod X86
pub mod Platform
pub mod Boards
pub mod Kernels
pub mod Tools
