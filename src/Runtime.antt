-- ===== src/Runtime.antt =====
-- src/runtime: the scheduler of the actors, and the futures.
pub mod Actors
pub mod Futures
pub mod ReadyStack
