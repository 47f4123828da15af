-- ===== src/Cache.antt =====
-- binlog.cc: the caches in which a session collects the events of its transaction before they go to the
-- binary log, and the writer that copies them there.
pub mod Storage
pub mod Data
pub mod Trx
pub mod Writer
pub mod Flush
mod Tests
