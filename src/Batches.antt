-- ===== src/Batches.antt =====
-- batch_append.py: appends of many tables in one commit.
pub mod Write
pub mod Account
pub mod Chunks
pub mod Planning
pub mod Whole
pub mod Flat
pub mod Order
