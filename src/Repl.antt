-- ===== src/Repl.antt =====
-- repl/ModuleTable.cpp, and how `loadModuleFile` of repl/Session.cpp uses it.
pub mod ModuleTable
pub mod Loading
pub mod Owners
mod Tests
