-- ===== src/Runtime/Futures.antt =====
-- runtime/Futures.cpp: a future, the moves of the threads on it, and what they keep.
pub mod Moves
pub mod Settled
pub mod Waiters
pub mod Continuations
mod Tests
