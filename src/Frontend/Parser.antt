-- ===== src/Frontend/Parser.antt =====
-- frontend/Parser.cpp: the part that parses an expression with operators.
pub mod Operators
pub mod Cursor
pub mod Prefix
pub mod Infix
pub mod Chains
pub mod Decisions
pub mod Sides
pub mod Grouping
pub mod Interpolation
pub mod Weave
mod Tests
