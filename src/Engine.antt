-- ===== src/Engine.antt =====
-- The engine (crates/executor/src/lib.rs): the whole executor's state, the operations on it, and
-- what all of them keep.
pub mod State
pub mod Control
pub mod Residency
pub mod Queueing
pub mod Drain
pub mod Operations
pub mod Loop
pub mod Isolated
pub mod Invariant
