-- ===== src/Tests.antt =====
-- The theorems at concrete inputs.
mod Rows
mod Planning
mod Running
mod Sharing
mod Sources
mod Jobs
mod Records
mod Polling
