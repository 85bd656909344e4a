-- ===== src/Cycle.antt =====
-- initial_check.plan_cycle and launcher.py: how a check's cycle becomes ingest runs.
pub mod Shares
pub mod Whole
pub mod Launch
pub mod Room
pub mod Requests
pub mod Deferred
