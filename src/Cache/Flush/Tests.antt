-- ===== src/Cache/Flush/Tests.antt =====
-- A session that flushes both of its caches.
use knowledge_base.Base.{ℕ, pos, Bool, true, false, none, List, [], ◌∷◌, ◌≡◌, refl, ◌⊎◌}
use knowledge_base.Tracking.Thd.{other}
use knowledge_base.Tracking.CommitOrder.Bounds.{init-IsValid}
use knowledge_base.Tracking.Tracker
use knowledge_base.Cache.Storage.{bytes_storage}
use knowledge_base.Cache.Data
use knowledge_base.Cache.Data.{CacheData}
use knowledge_base.Cache.Flush.{
  no_error, is_flush_error, Flusher, Io, Log, write_transaction, write_cache, numbered, flush,
  flush_finalized, flush_trx, CacheMngr, mngr_flush,
}
use knowledge_base.Cache.Flush.Groups.{Ended, flush-Ended}
use knowledge_base.Cache.Flush.Order.{Successive, mngr_flush-Successive}

abbrev finalized : Bool → List ℕ → CacheData (List ℕ)
finalized transactional bytes = record {
  flags = record {
    transactional = transactional;
    incident = false;
    immediate = false;
    finalized = true;
    with_xid = false;
    with_sbr = false;
    with_rbr = true;
    with_start = true;
    with_end = true;
    with_content = true;
  };
  cache_state_map = [];
  event_counter = 3;
  compressed_size = 0;
  decompressed_size = 0;
  compression_type = 255;
  cache = bytes;
  pending = none;
  binlog_cache_use = 0;
  binlog_cache_disk_use = 0;
}

abbrev session : Flusher
session = record {
  thd = record {
    sequence_number = pos 0;
    last_committed = pos 0;
    sql_command = other 0;
    alter_admin_partition = false;
    write_set = [];
    has_missing_keys = false;
    has_related_foreign_keys = false;
    write_set_limit_reached = false;
    is_empty_transaction = false;
    write_set_extraction = 2;
    last_session_sequence_number = pos 0;
  };
  commit_error = no_error;
  original_commit_timestamp = none;
  original_server_version = none;
  slave_thread = false;
  is_binlog_applier = false;
  gtid_timestamps_warning_logged = false;
}

abbrev works : Io
works = record { gtid_fails = false; copy_fails = false; incident_fails = false; micro_time = 1000 }

abbrev empty_log : Log (List ℕ)
empty_log = record { tracker = Tracker.init; groups = [] }

flush-Ended_example :
    let (d, r) =
      flush bytes_storage 2 80020 999999 works 0
        (finalized true (4 ∷ 5 ∷ []))
        empty_log
        session
        false in
    ((true ≡ false)
      × (d ≡ finalized true (4 ∷ 5 ∷ []))
      × (r.log ≡ empty_log)
      × (r.flusher ≡ session)
      × (r.error ≡ false)
      × (r.bytes_written ≡ 0))
    ⊎ ((true ≡ true)
        × (d ≡ Data.reset bytes_storage (finalized true (4 ∷ 5 ∷ [])))
        × (r.bytes_written ≡ 2)
        × Ended bytes_storage 2 80020 999999 (finalized true (4 ∷ 5 ∷ [])) empty_log r)
flush-Ended_example =
    flush-Ended bytes_storage 2 80020 999999 works 0 (finalized true (4 ∷ 5 ∷ [])) empty_log session
      false

abbrev both : CacheMngr bytes_storage 2 80020 999999
both = record {
  stmt_cache = finalized false (1 ∷ []);
  trx_cache = record {
    cache_data = finalized true (4 ∷ 5 ∷ []);
    cannot_rollback = false;
    before_stmt_pos = 0;
  };
}

quiet_example :
    (mngr_flush bytes_storage 2 80020 999999 works works 0 both empty_log session false).1.error
    ≡ false
unfolding mngr_flush flush_trx flush flush_finalized is_flush_error numbered write_transaction
    write_cache
quiet_example = refl

mngr_flush-Successive_example :
    Successive bytes_storage 2 80020 999999 both.stmt_cache both.trx_cache.cache_data empty_log
      (mngr_flush bytes_storage 2 80020 999999 works works 0 both empty_log session false).1.log
unfolding Tracker.init
mngr_flush-Successive_example =
    mngr_flush-Successive bytes_storage 2 80020 999999 works works 0 both empty_log session false
      refl refl refl init-IsValid quiet_example
