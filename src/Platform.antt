-- ===== src/Platform.antt =====
-- What the platforms under platforms/ have in common: the layout of memory, and the tables that map it
-- at boot.
pub mod Memory
pub mod Boot
pub mod Sections
pub mod Power
