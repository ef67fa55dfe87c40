-- ===== src/Boards.antt =====
-- What the other platforms under platforms/ have of their own: consoles, and the start of the other CPUs.
pub mod Console
pub mod Start
pub mod Reset
