-- ===== src/Cache/Trx/Logging.antt =====
-- MYSQL_BIN_LOG::write_event, for an event that goes to the transaction cache, with what it calls: the
-- flush of the pending rows event, the BEGIN of a transaction, and the events that describe the context
-- of a statement. Errors that are reported to the client and the registration of the binary log as a
-- participant of the transaction leave no trace here.
pub mod Flushed
use knowledge_base.Base.{
  ℕ, Bool, true, false, not, ◌&&◌, ◌||◌, Option, none, some, List, [], ◌∷◌, ◌++◌, if◌then◌else◌,
}
use knowledge_base.Cache.Storage.{Storage}
use knowledge_base.Cache.Data
use knowledge_base.Cache.Data.{CacheData, CachedEvent, is_binlog_empty}
use knowledge_base.Cache.Trx.{TrxCache, set_cannot_rollback}

-- SQLCOM_SAVEPOINT, SQLCOM_ROLLBACK_TO_SAVEPOINT and the others.
pub data Command : Type 0 where
  savepoint rollback_to_savepoint other_command : Command

abbrev pub is_savepoint : Command → Bool
is_savepoint savepoint = true
is_savepoint rollback_to_savepoint = false
is_savepoint other_command = false

abbrev pub names_savepoint : Command → Bool
names_savepoint savepoint = true
names_savepoint rollback_to_savepoint = true
names_savepoint other_command = false

-- What is read of the session, the log and the filter while one event is written.
pub record Thd : Type 0 where
  -- binlog_evt_union
  pub do_union : Bool
  pub unioned_events : Bool
  pub unioned_events_trans : Bool
  pub in_sub_stmt : Bool
  pub sql_command : Command
  pub locked_tables_mode : Bool
  pub requires_prelocking : Bool
  pub binlog_table_maps : ℕ
  -- is_open(), which is asked before the flush of the pending event and before the write
  pub is_open_at_flush : Bool
  pub is_open : Bool
  -- OPTION_BIN_LOG, and binlog_filter->db_ok for the database of the event
  pub option_bin_log : Bool
  pub db_ok : Bool
  pub setup_fails : Bool
  -- the query BEGIN, or XA START where the transaction is one of XA
  pub begin : CachedEvent
  pub is_format_row : Bool
  -- the events LAST_INSERT_ID, INSERT_ID and RAND that the statement needs, and its user variables
  pub last_insert_id : Option CachedEvent
  pub insert_id : Option CachedEvent
  pub rand : Option CachedEvent
  pub user_vars : List CachedEvent
  -- stmt_cannot_safely_rollback and check_write_error
  pub cannot_safely_rollback : Bool
  pub write_error : Bool
  -- the pending rows event as it is written without STMT_END_F
  pub without_stmt_end : CachedEvent → CachedEvent

abbrev pub listed : Option CachedEvent → List CachedEvent
listed none = []
listed (some ev) = ev ∷ []

-- The events that are written before one of a statement in statement format.
unfoldable pub context_events : Thd → List CachedEvent
context_events thd =
    if not thd.is_format_row
    then listed thd.last_insert_id ++ listed thd.insert_id ++ listed thd.rand ++ thd.user_vars
    else []

unfoldable pub ends_stmt : Thd → Bool
ends_stmt thd =
    if thd.in_sub_stmt && is_savepoint thd.sql_command
    then true
    else thd.locked_tables_mode && thd.requires_prelocking

module _ {S : Type 0} (st : Storage S) where
  -- An error of a write makes the cache one with an incident, where the statement cannot be undone.
  unfoldable pub note_write_error : Thd → CacheData S → CacheData S
  note_write_error thd c =
      if thd.write_error && thd.cannot_safely_rollback
      then record c { flags = record c.flags { incident = true } }
      else c

  -- flush_and_set_pending_rows_event(thd, nullptr, true), where the pending event is written as `pending`.
  unfoldable pub write_pending : Thd → CachedEvent → CacheData S → CacheData S × Bool
  write_pending thd pending c =
      let (d, error) = Data.write_event st (some pending) c in
      if error
      then (record (note_write_error thd d) { pending = none }, true)
      else (record d { pending = none }, false)

  unfoldable pub flush_pending : Thd → Option CachedEvent → CacheData S → Thd × CacheData S × Bool
  flush_pending thd none c = (thd, c, false)
  flush_pending thd (some pending) c =
      let (d, error) = write_pending thd pending c in
      let (d', error') = write_pending thd (thd.without_stmt_end pending) c in
      if ends_stmt thd then (record thd { binlog_table_maps = 0 }, d, error) else (thd, d', error')

  -- THD::binlog_flush_pending_rows_event
  unfoldable pub binlog_flush_pending_rows_event : Thd → CacheData S → Thd × CacheData S × Bool
  unfolding flush_pending
  binlog_flush_pending_rows_event thd c =
      if thd.is_open_at_flush then flush_pending thd c.pending c else (thd, c, false)

  unfoldable pub binlog_start_trans_and_stmt : Thd → CachedEvent → CacheData S → CacheData S × Bool
  binlog_start_trans_and_stmt thd ev c =
      if thd.setup_fails
      then (c, true)
      else if ev.is_using_immediate_logging || ev.is_atomic_ddl_event
      then (c, false)
      else if is_binlog_empty st c
      then Data.write_event st (some thd.begin) c
      else (c, false)

  -- Events are written up to the first that fails.
  unfoldable pub write_each : List CachedEvent → CacheData S → CacheData S × Bool
  write_each [] c = (c, false)
  write_each (ev ∷ evs) c =
      let (d, error) = Data.write_event st (some ev) c in
      let rest = write_each evs d in if error then (d, true) else rest

  -- The event with its context, in an open log.
  unfoldable pub write_started : Thd → CachedEvent → TrxCache S → TrxCache S × Bool
  write_started thd ev c =
      let (d, error) = write_each (context_events thd ++ (ev ∷ [])) c.cache_data in
      let written = record c { cache_data = d } in
      if error
      then (record c { cache_data = note_write_error thd d }, true)
      else (if thd.cannot_safely_rollback then set_cannot_rollback st written else written, false)

  unfoldable pub is_filtered : Thd → Bool → Bool
  is_filtered thd no_filter =
      not thd.option_bin_log
      || (not (names_savepoint thd.sql_command) && not no_filter && not thd.db_ok)

  -- From is_open() on.
  unfoldable pub write_flushed : Thd → Bool → CachedEvent → TrxCache S → TrxCache S × Bool
  write_flushed thd no_filter ev c =
      let (d, error) = binlog_start_trans_and_stmt thd ev c.cache_data in
      let started = record c { cache_data = d } in
      if not thd.is_open
      then (c, true)
      else if is_filtered thd no_filter
      then (c, false)
      else if error
      then (started, true)
      else write_started thd ev started

  -- `no_filter` is is_no_filter_event() of the event. The Boolean of the result is true for an error.
  unfoldable pub write_event : Thd → Bool → CachedEvent → TrxCache S → Thd × TrxCache S × Bool
  write_event thd no_filter ev c =
      let (thd', d, error) = binlog_flush_pending_rows_event thd c.cache_data in
      let flushed = record c { cache_data = d } in
      let (written, error') = write_flushed thd' no_filter ev flushed in
      if thd.do_union
      then (record thd { unioned_events = true; unioned_events_trans = true }, c, false)
      else if error
      then (thd', flushed, true)
      else (thd', written, error')
