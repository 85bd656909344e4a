-- ===== src/Parallel.antt =====
-- parallel.py: what bounds the queries a run has going at once.
pub mod Limiter
pub mod Served
pub mod Capped
pub mod Items
pub mod Counts
pub mod Slots
pub mod Kept
