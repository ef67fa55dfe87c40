-- ===== src/Kernels.antt =====
-- The kernels under examples/ that run on the platforms.
pub mod Smp
pub mod Timer
pub mod Linker
pub mod Hello
