-- ===== src/Planner.antt =====
-- planner.py: where each control row goes in a run, change detection of one source database, the
-- seed budget, and the bookkeeping of unchanged tables.
pub mod Plans
pub mod Rows
pub mod Route
pub mod Detect
pub mod Budget
pub mod Retries
pub mod Stamps
pub mod Parts
