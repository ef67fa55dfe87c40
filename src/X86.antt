-- ===== src/X86.antt =====
-- The platform of platforms/axplat-x86-pc/src.
pub mod Irq
pub mod Time
pub mod Mem
pub mod Mp
pub mod Init
