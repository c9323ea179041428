-- ===== src/Runtime/Actors.antt =====
-- runtime/ActorScheduler.cpp: the actors, the moves of the threads on them, and what they keep.
pub mod State
pub mod Moves
pub mod Counts
pub mod Kept
pub mod Claims
pub mod Order
mod Tests
