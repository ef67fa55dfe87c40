-- ===== src/Loongarch.antt =====
-- The platform of platforms/axplat-loongarch64-qemu-virt/src.
pub mod Irq
pub mod Time
pub mod Console
pub mod Init
