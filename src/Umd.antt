-- ===== src/Umd.antt =====
-- umd: how the names of an import and of a call on a foreign object are read.
pub mod Selector
mod Tests
