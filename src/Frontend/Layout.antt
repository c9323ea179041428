-- ===== src/Frontend/Layout.antt =====
-- frontend/Layout.cpp: the offside rule, a pass over the raw tokens of the lexer.
pub mod Rules
pub mod State
pub mod LineBreak
pub mod Pass
pub mod Nesting
pub mod Inserts
pub mod Closes
pub mod Emits
pub mod Correct
mod Tests
