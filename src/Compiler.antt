-- ===== src/Compiler.antt =====
-- src/compiler: the compiler's data structures.
pub mod Opcodes
pub mod Bytecode
pub mod TailRec
