-- ===== src/Support.antt =====
-- src/support: what the compiler and the runtime share.
pub mod Decimals
pub mod FormatSpec
pub mod FormatLaws
mod Tests
