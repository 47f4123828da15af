-- ===== src/Tracking.antt =====
-- rpl_trx_tracking.h and rpl_trx_tracking.cc: the logical timestamps that the source logs with each
-- transaction, from which the replica decides what may run in parallel.
pub mod Thd
pub mod Clock
pub mod CommitOrder
pub mod Writeset
pub mod Session
pub mod Tracker
mod Tests
