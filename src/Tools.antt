-- ===== src/Tools.antt =====
-- What is used to build a kernel or a platform: axplat-macros/src and cargo-axplat.
pub mod Macros
pub mod Info
pub mod Commands
pub mod Template
pub mod Build
mod Cli
