-- ===== src/Commit.antt =====
-- Group commit: what becomes of the sessions between the flush of their caches and the commit in the
-- engines, and what a restart makes of the log that they left.
pub mod Group
pub mod Stages
pub mod Ordered
pub mod Recover
mod Tests
