-- ===== src/Compiler/TailRec.antt =====
-- compiler/CompileTailRec.cpp: the calls of a `@tailrec` method that stand in tail position.
pub mod Sites
pub mod Follow
pub mod Laws
pub mod Returns
mod Tests
