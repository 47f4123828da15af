-- ===== src/Cache/Tests.antt =====
-- The caches of a session, on bytes in a list.
use knowledge_base.Base.{ℕ, true, false, none, some, List, [], ◌∷◌, ◌≡◌, refl, arith}
use knowledge_base.Cache.Storage.{bytes_storage, bytes_laws}
use knowledge_base.Cache.Data
use knowledge_base.Cache.Data.{
  CacheData, CachedEvent, Session, Compressor, init, is_binlog_empty, has_empty_transaction,
  may_have_sbr_stmts, reset, finalize, compress,
}
use knowledge_base.Cache.Data.Content.{
  Serializable, write_events, write_events-described, Outcome, compress-Outcome,
}
use knowledge_base.Cache.Trx
use knowledge_base.Cache.Trx.{
  TrxCache, set_prev_position, restore_prev_position, restore_savepoint, my_off_t_undef,
}
use knowledge_base.Cache.Trx.Logging
use knowledge_base.Cache.Trx.Logging.{Thd}
use knowledge_base.Cache.Trx.Handlers.{
  binlog_savepoint_set, binlog_savepoint_rollback, with_pending, binlog_savepoint_rollback-Restored,
}
use knowledge_base.Cache.Trx.Savepoint.{
  Restored, log_events, savepoint, savepoint-Restored, statement-Restored,
}

-- A row change, with its bytes.
abbrev rows : List ℕ → CachedEvent
rows bytes = record {
  bytes = some bytes;
  is_xid_event = false;
  is_using_immediate_logging = false;
  is_atomic_ddl_event = false;
  is_sbr_logging_format = false;
  is_rbr_logging_format = true;
  starts_group = false;
  ends_group = false;
}

abbrev begin : CachedEvent
begin = record (rows (1 ∷ [])) { is_rbr_logging_format = false; starts_group = true }

abbrev events : List CachedEvent
events = rows (2 ∷ 3 ∷ []) ∷ rows (4 ∷ []) ∷ []

events-Serializable : Serializable events
events-Serializable = ((2 ∷ 3 ∷ [], refl), ((4 ∷ [], refl), tt))

-- A transaction cache that holds the beginning of a transaction.
abbrev begun : TrxCache (List ℕ)
begun = log_events bytes_storage bytes_laws (begin ∷ []) (Trx.init bytes_storage [])

savepoint-Restored_example :
    Restored bytes_storage bytes_laws begun.cache_data
      (restore_savepoint bytes_storage 1 (
        log_events bytes_storage bytes_laws events
          (savepoint bytes_storage bytes_laws begun))).cache_data
unfolding write_events Data.write_event Data.note_event Trx.init init
savepoint-Restored_example =
    savepoint-Restored bytes_storage bytes_laws begun events events-Serializable (omega arith)

statement-Restored_example :
    let d =
      restore_prev_position bytes_storage
        (log_events bytes_storage bytes_laws events (set_prev_position bytes_storage 1 begun)) in
    Restored bytes_storage bytes_laws begun.cache_data d.cache_data
    × (d.before_stmt_pos ≡ my_off_t_undef)
    × (d.cache_data.flags.with_xid ≡ false)
unfolding write_events Data.write_event Data.note_event Trx.init init
statement-Restored_example =
    statement-Restored bytes_storage bytes_laws begun events events-Serializable (omega arith)

write_events-described_example :
    let c = write_events bytes_storage events (init bytes_storage true []) in
    (c.event_counter ≡ 2)
    × (has_empty_transaction bytes_storage c ≡ false)
    × (may_have_sbr_stmts bytes_storage c ≡ false)
write_events-described_example =
    write_events-described bytes_storage true [] events events-Serializable

abbrev session : Session
session = record {
  binlog_trx_compression = true;
  modified_non_trans_stmt = false;
  modified_non_trans_session = false;
  compressor = some (record {
    compression_type_code = 0;
    buffer_fails = false;
    copy_fails = false;
    truncate_fails = false;
    payload_event = rows (9 ∷ []);
  });
}

abbrev changed : CacheData (List ℕ)
changed = write_events bytes_storage events (init bytes_storage true [])

-- A cache with a pending event, and compression off.
abbrev waiting : CacheData (List ℕ)
waiting = record changed { pending = some (rows (6 ∷ [])) }

abbrev plain_session : Session
plain_session = record session { binlog_trx_compression = false }

compress-Outcome_example :
    Outcome bytes_storage session changed (compress bytes_storage session changed)
compress-Outcome_example = compress-Outcome bytes_storage session changed

-- A session in row format that executes a SAVEPOINT in an open log.
abbrev thd : Thd
thd = record {
  do_union = false;
  unioned_events = false;
  unioned_events_trans = false;
  in_sub_stmt = true;
  sql_command = Logging.savepoint;
  locked_tables_mode = false;
  requires_prelocking = false;
  binlog_table_maps = 2;
  is_open_at_flush = true;
  is_open = true;
  option_bin_log = true;
  db_ok = false;
  setup_fails = false;
  begin = begin;
  is_format_row = true;
  last_insert_id = none;
  insert_id = none;
  rand = none;
  user_vars = [];
  cannot_safely_rollback = false;
  write_error = false;
  without_stmt_end = λ ev. ev;
}

abbrev query : CachedEvent
query = record (rows (9 ∷ [])) { is_rbr_logging_format = false; is_sbr_logging_format = true }

-- Rows are pending when the SAVEPOINT comes.
abbrev with_rows : TrxCache (List ℕ)
with_rows = with_pending bytes_storage bytes_laws (some (rows (7 ∷ 8 ∷ []))) begun

-- They go to the cache before the SAVEPOINT does.
write_event_example :
    (Logging.write_event bytes_storage thd false query with_rows).1.cache_data.cache
    ≡ 1 ∷ 7 ∷ 8 ∷ 9 ∷ []
unfolding Logging.write_event Logging.binlog_flush_pending_rows_event Logging.ends_stmt
    Logging.write_pending Data.write_event Logging.write_flushed Logging.is_filtered
    Logging.binlog_start_trans_and_stmt is_binlog_empty Data.note_event write_events Trx.init init
    Logging.write_started Logging.write_each Logging.context_events
write_event_example = refl

binlog_savepoint_rollback-Restored_example :
    let logged = (Logging.write_event bytes_storage thd false query with_rows).1 in
    (logged.cache_data.pending ≡ none)
    × ((pos : ℕ) × (set : TrxCache (List ℕ)) × (binlog_savepoint_set bytes_storage thd false query
            with_rows
          ≡ ((Logging.write_event bytes_storage thd false query with_rows).0, set, some pos))
        × (let r = binlog_savepoint_rollback bytes_storage false thd false query pos (
              with_pending bytes_storage bytes_laws
                (some (rows (5 ∷ [])))
                (log_events bytes_storage bytes_laws events set)) in
            (r.2 ≡ false) × Restored bytes_storage bytes_laws logged.cache_data r.1.cache_data))
unfolding Logging.write_event Logging.binlog_flush_pending_rows_event Logging.ends_stmt
    Logging.write_pending Data.write_event Logging.write_flushed Logging.is_filtered
    Logging.binlog_start_trans_and_stmt is_binlog_empty Data.note_event write_events Trx.init init
    Logging.write_started Logging.write_each Logging.context_events
binlog_savepoint_rollback-Restored_example =
    binlog_savepoint_rollback-Restored bytes_storage bytes_laws thd thd false query query with_rows
      events (some (rows (5 ∷ []))) refl refl refl (omega arith) events-Serializable
