-- ===== src/Frontend/Ast.antt =====
-- frontend/AST.h and AST.cpp: the tree that the parser makes, and the functions that walk it.
pub mod Types
pub mod Tree
pub mod Slots
pub mod Forest
pub mod Destroy
pub mod Clone
pub mod Rebase
pub mod Render
pub mod Dump
pub mod RebaseLaws
pub mod RebasePlaces
mod Tests
