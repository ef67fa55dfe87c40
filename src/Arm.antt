-- ===== src/Arm.antt =====
-- Device drivers shared by the ARM platforms: platforms/axplat-arm-peripherals/src.
pub mod Pl011
pub mod Gic
pub mod Psci
pub mod Timer
pub mod Init
