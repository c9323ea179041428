-- ===== src/Runtime/ReadyStack.antt =====
-- runtime/ReadyStack.h: the stack of ready actors, which any number of threads push to and pop from.
pub mod Nodes
pub mod State
pub mod Moves
pub mod Kept
pub mod Owned
pub mod Unlinks
pub mod Links
pub mod Linear
pub mod InChunks
pub mod Sizes
pub mod Progress
mod Tests
