-- ===== src/Riscv.antt =====
-- The platform axplat-riscv64-qemu-virt.
pub mod Irq
pub mod Time
pub mod Console
pub mod Init
