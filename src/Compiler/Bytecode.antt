-- ===== src/Compiler/Bytecode.antt =====
-- compiler/BytecodeModule.cpp: one compiled function body.
pub mod Code
pub mod Decoding
pub mod Jumps
pub mod Handlers
pub mod Pool
pub mod PoolLaws
pub mod Frame
pub mod Listing
mod Tests
