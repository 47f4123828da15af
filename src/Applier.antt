-- ===== src/Applier.antt =====
-- rpl_mts_submode.h and rpl_mts_submode.cc: how the coordinator of a multi-threaded replica decides
-- when the next transaction may be handed to a worker, and to which.
pub mod Coordinator
pub mod LogicalClock
pub mod Workers
pub mod Database
pub mod Payload
mod Tests
