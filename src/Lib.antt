-- ===== src/Lib.antt =====
-- How MySQL 8.0 orders transactions between a primary and a multi-threaded replica: the annotated
-- server sources under mysql/源码分析.
--
-- On the primary a session collects the events of its transaction in caches (提交/binlog.cc, Cache).
-- At the flush the transaction is numbered and gets the number of a parent
-- (提交/rpl_trx_tracking.cc, Tracking); both numbers are logged in the GTID event
-- (复制/log_event.cc, Event), and the group is synchronised and committed with those queued behind it
-- (Commit). Old files of the log are taken from its index (Index). On the replica
-- the coordinator reads them and decides when the transaction may start, and in which worker
-- (复制/rpl_mts_submode.cc, Applier).
--
-- Tracking/Thd is what the trackers read of a session. Tracking/Clock is Logical_clock,
-- Tracking/CommitOrder, Tracking/Writeset and Tracking/Session the three trackers, and
-- Tracking/Tracker the Transaction_dependency_tracker that combines them by the mode.
-- get_dependency, step, rotate, update_max_committed and tracking_mode_changed are the methods of
-- those names; the two reference arguments of get_dependency are the record Dependency. Child
-- modules hold the proofs: Cas, Bounds, Loop, Soundness and Invariant.
--
-- Applier/Coordinator is the part of Relay_log_info that the schedulers use. Applier/LogicalClock
-- is Mts_submode_logical_clock with its state in Submode and its waits, its child Schedule has
-- schedule_next_event, and Choice get_least_occupied_worker; Applier/Database and Applier/Payload
-- are Mts_submode_database, and Applier/Workers has both choices of a worker.
--
-- Cache/Data is binlog_cache_data, Cache/Trx is binlog_trx_cache_data. Binlog_cache_storage, whose code
-- is not in the repository, is the interface Cache/Storage, with a list of bytes as an instance; that a
-- truncation of it may fail, which the code ignores, is left out.
-- Cache/Writer is Binlog_event_writer, over Env, the file and the byte functions that it calls; Parts and
-- Loop compare its loop with a writer of single bytes, Events is about parts, and Whole and Corrected
-- are about whole events, the latter with a layout of the header of its own.
-- Cache/Flush is binlog_cache_data::flush, write_transaction, write_cache and binlog_cache_mngr, which
-- number the session's groups by Tracking/Tracker and append them to the log; which writes fail is an
-- argument. A group whose write fails is not counted as logged.
-- Replication joins both ends: what Tracking logs is what Applier reads.
-- Cache/Trx/Handlers has the handlers of SAVEPOINT and ROLLBACK TO, and Cache/Trx/Logging
-- MYSQL_BIN_LOG::write_event, by which they write their query: the union of events, the flush of the
-- pending rows event, the filter, BEGIN and the events of the context, all in the transaction cache.
-- Commit is MYSQL_BIN_LOG::ordered_commit. Group has the sessions, the state of the log and what is
-- done for one session, finish_commit included; Stages has the loops of the three stages over a queue,
-- whose first session is the leader; Ordered composes them. The managers of the stages are not in the
-- repository: what a leader finds when it enters a stage, the log as others left it and the sessions
-- that stand behind its own, is an argument. The calls of the engines, the file, the plugins and the
-- GTID state stand in a trace, and their answers are arguments.
-- Commit/Recover is binlog_recover, over the events with their positions.
-- Index is the index file as the list of its names: find_log_pos, find_next_log and get_log_index, with
-- offsets that count entries instead of bytes. Index/Purge is purge_logs, purge_index_entry and what
-- remove_logs_from_index does to the index and the threads that read it; Index/BeforeDate is
-- purge_logs_before_date, without the counts of its warnings. Index/CrashSafe is
-- remove_logs_from_index on the disk, over bytes, as the sequence of the disk's states, and what
-- open_index_file makes of each. normalize_binlog_name, is_active, log_in_use and the answers of the
-- files are arguments.
-- Event is Log_event::write of 复制/log_event.cc with its header, checksum and footer, and the events
-- whose bytes that file writes out: Rotate, Intvar, Rand, Xid, in Event/Gtid Gtid_log_event and in
-- Event/Context Transaction_context_log_event. The byte functions of other libraries are the record
-- Calls. Fields stand one behind another, as the offsets have them; Event/Layout has the
-- layout to which they are compared. An int that overflows wraps, and sizes of bytes in memory do not
-- wrap. Binlog_event_writer of Cache/Writer later corrects the length, the position and the checksum of
-- these bytes.
--
-- Loops and waits. The compare-and-exchange loop of set_if_greater runs on fuel, with an arbitrary
-- interference of the other threads before every attempt: the distance to the new value, which
-- every failed attempt shortens, or two rounds where the caller holds the lock. The coordinator's
-- waits take a list of what it sees at each awakening, checkpoint or yield, and give none where
-- the list ends before the wait does. The loop of Binlog_event_writer::write runs on the length of
-- the buffer as fuel, since every round takes a byte, and the loops over the index on its number of
-- entries, since every round reads one. int64 timestamps are unbounded integers, and the 32-bit job
-- counts wrap; the 32-bit counter of prepared XIDs is unbounded as well.
--
-- Not modelled: debug assertions and injected faults; the temporary tables handed between threads;
-- how files of the binary log are named and opened; the events of other kinds; and the excerpts of
-- group replication and online DDL, whose callees are not in the repository.
-- Mts_checkpoint_routine, Slave_committed_queue::find_lwm, the deserialization of inner events,
-- the compressor and mts_move_temp_tables_to_thd are parameters.
pub mod Base
pub mod Tracking
pub mod Applier
pub mod Cache
pub mod Commit
pub mod Index
pub mod Event
pub mod Replication
