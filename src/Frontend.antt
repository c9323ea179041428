-- ===== src/Frontend.antt =====
-- src/frontend: the front end of the compiler.
pub mod Token
pub mod Ast
pub mod Parser
pub mod Layout
pub mod Linearizer
pub mod Lexer
