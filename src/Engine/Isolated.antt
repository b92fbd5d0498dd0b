-- ===== src/Engine/Isolated.antt =====
-- The isolated drain (crates/executor/src/lib.rs, the second half): the order of the cells,
-- what the worker is given and what becomes of its answer, and the drain itself.
pub mod Order
pub mod Cells
pub mod Drain
pub mod Loop
pub mod Delivery
