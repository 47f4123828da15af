-- ===== src/Cache/Flush.antt =====
-- binlog_cache_data::flush, MYSQL_BIN_LOG::write_transaction and binlog_cache_mngr: how the caches of a
-- session go to the binary log, each as a group of its own.
pub mod Groups
pub mod Order
pub mod Numbers
mod Tests
use knowledge_base.Base.{
  ℕ, ◌+◌, ltb, leb, ◌==◌, ℤ, pos, ◌-ℤ◌, eqb_ℤ, Bool, true, false, not, ◌&&◌, ◌||◌, Option, none,
  some, List, [], ◌∷◌, ◌++◌, if◌then◌else◌,
}
use knowledge_base.Tracking.Thd.{Thd}
use knowledge_base.Tracking.Clock.{seq_uninit}
use knowledge_base.Tracking.CommitOrder.{Dependency}
use knowledge_base.Tracking.Tracker
use knowledge_base.Tracking.Tracker.{Tracker}
use knowledge_base.Cache.Storage.{Storage}
use knowledge_base.Cache.Data
use knowledge_base.Cache.Data.{
  CacheData, may_have_sbr_stmts, is_binlog_empty, is_empty_or_has_empty_transaction,
}
use knowledge_base.Cache.Trx
use knowledge_base.Cache.Trx.{TrxCache}

-- THD::Commit_error: CE_NONE, CE_FLUSH_ERROR, CE_FLUSH_GNO_EXHAUSTED_ERROR, CE_SYNC_ERROR and
-- CE_COMMIT_ERROR.
pub data CommitError : Type 0 where
  no_error flush_error gno_exhausted_error sync_error engine_error : CommitError

unfoldable pub is_flush_error : CommitError → Bool
is_flush_error e = elim e [
  | no_error ↦ false
  | flush_error ↦ true
  | gno_exhausted_error ↦ true
  | sync_error ↦ false
  | engine_error ↦ false
]

-- The session that flushes. The two variables of original values are none where they are UNDEFINED.
pub record Flusher : Type 0 where
  pub thd : Thd
  pub commit_error : CommitError
  pub original_commit_timestamp : Option ℕ
  pub original_server_version : Option ℕ
  pub slave_thread : Bool
  pub is_binlog_applier : Bool
  -- rli_slave->get_c_rli()->gtid_timestamps_warning_logged
  pub gtid_timestamps_warning_logged : Bool

-- The Gtid_log_event that begins a group.
pub record GtidEvent : Type 0 where
  pub is_trx_cache : Bool
  pub last_committed : ℤ
  pub sequence_number : ℤ
  pub may_have_sbr_stmts : Bool
  pub original_commit_timestamp : ℕ
  pub immediate_commit_timestamp : ℕ
  pub original_server_version : ℕ
  pub immediate_server_version : ℕ
  -- the arguments of set_trx_length_by_cache_size
  pub byte_position : ℕ
  pub event_counter : ℕ

-- The files and the clock during one flush: which writes fail, and my_micro_time().
pub record Io : Type 0 where
  pub gtid_fails : Bool
  pub copy_fails : Bool
  pub incident_fails : Bool
  pub micro_time : ℕ

-- The value that the event gets: the session's, or 0 for an applier, or the time now.
unfoldable pub original_timestamp : ℕ → Flusher → ℕ
original_timestamp now f = elim f.original_commit_timestamp [
  | some t ↦ t
  | none ↦ if f.slave_thread || f.is_binlog_applier then 0 else now
]

-- `server_version` is that of this server, `unknown` is UNKNOWN_SERVER_VERSION.
unfoldable pub original_version : ℕ → ℕ → Flusher → ℕ
original_version server_version unknown f = elim f.original_server_version [
  | some v ↦ v
  | none ↦ if f.slave_thread || f.is_binlog_applier then unknown else server_version
]

-- The warning is logged once, until the timestamps are in order again.
unfoldable pub timestamps_warning : ℕ → Flusher → Bool
timestamps_warning now f =
    let late = ltb now (original_timestamp now f) in
    if f.slave_thread
    then (if late && not f.gtid_timestamps_warning_logged
        then true
        else if f.gtid_timestamps_warning_logged && not late
        then false
        else f.gtid_timestamps_warning_logged)
    else f.gtid_timestamps_warning_logged

-- The groups that the log holds in whole, a GTID event with the bytes of its cache, and the tracker.
pub record Log (S : Type 0) : Type 0 where
  pub tracker : Tracker
  pub groups : List (GtidEvent × S)

module _ {S : Type 0} (st : Storage S) (extraction server_version unknown : ℕ) where
  -- MYSQL_BIN_LOG::write_cache, true for an error.
  unfoldable pub write_cache : Io → CacheData S → Bool
  write_cache io c =
      not (st.size c.cache == 0) && (io.copy_fails || (c.flags.incident && io.incident_fails))

  unfoldable pub write_transaction : Io → CacheData S → Log S → Flusher → Log S × Flusher × Bool
  write_transaction io c log f =
      let (tracker, thd, d) = Tracker.get_dependency extraction log.tracker f.thd in
      let event : GtidEvent = record {
        is_trx_cache = c.flags.transactional;
        last_committed = d.commit_parent;
        sequence_number = d.sequence_number;
        may_have_sbr_stmts = may_have_sbr_stmts st c;
        original_commit_timestamp = original_timestamp io.micro_time f;
        immediate_commit_timestamp = io.micro_time;
        original_server_version = original_version server_version unknown f;
        immediate_server_version = server_version;
        byte_position = st.size c.cache;
        event_counter = c.event_counter;
      } in
      let f' = record f {
        thd = record thd { last_committed = seq_uninit };
        original_commit_timestamp = none;
        original_server_version = none;
        gtid_timestamps_warning_logged = timestamps_warning io.micro_time f;
      } in
      if io.gtid_fails
      then (record log { tracker = tracker }, f', true)
      else if write_cache io c
      then (record log { tracker = tracker }, record f' { commit_error = flush_error }, true)
      else (record { tracker = tracker; groups = log.groups ++ ((event, c.cache) ∷ []) }, f', false)

  -- The transaction's number, and its parent for the second of two caches.
  unfoldable pub numbered : ℤ → Flusher → Flusher
  numbered n f = record f {
    thd = record f.thd {
      sequence_number = n;
      last_committed =
          if eqb_ℤ f.thd.last_committed seq_uninit then n -ℤ pos 1 else f.thd.last_committed;
    };
  }

  -- What a flush leaves: the log, the session, the error, and the two results by reference.
  pub record Flushed : Type 0 where
    pub log : Log S
    pub flusher : Flusher
    pub error : Bool
    pub bytes_written : ℕ
    pub wrote_xid : Bool

  -- After write_transaction, by its result.
  abbrev pub conclude : CacheData S → Bool → Log S × Flusher × Bool → Flushed
  conclude c wrote_xid written = record {
    log = written.0;
    flusher = if written.2 then record written.1 { commit_error = flush_error } else written.1;
    error = written.2;
    bytes_written = st.size c.cache;
    wrote_xid = if c.flags.with_xid && not written.2 then true else wrote_xid;
  }

  unfoldable pub flush_finalized : Io → CacheData S → Log S → Flusher → Bool → Flushed
  flush_finalized io c log f wrote_xid =
      let (tracker, n) = Tracker.step log.tracker in
      let stepped = record log { tracker = tracker } in
      if is_flush_error f.commit_error
      then record {
        log = stepped;
        flusher = numbered n f;
        error = true;
        bytes_written = st.size c.cache;
        wrote_xid = wrote_xid;
      }
      else conclude c wrote_xid (write_transaction io c stepped (numbered n f))

  -- A cache that is not finalized stays, and `bytes` is what *bytes_written held.
  unfoldable pub flush : Io → ℕ → CacheData S → Log S → Flusher → Bool → CacheData S × Flushed
  flush io bytes c log f wrote_xid =
      if c.flags.finalized then (Data.reset st c, flush_finalized io c log f wrote_xid) else (
        c,
        record {
          log = log;
          flusher = f;
          error = false;
          bytes_written = bytes;
          wrote_xid = wrote_xid;
        },
      )

  -- binlog_cache_mngr. has_logged_xid is written by its callers alone.
  pub record CacheMngr : Type 0 where
    pub stmt_cache : CacheData S
    pub trx_cache : TrxCache S

  unfoldable pub mngr_is_binlog_empty : CacheMngr → Bool
  mngr_is_binlog_empty m =
      is_binlog_empty st m.stmt_cache && is_binlog_empty st m.trx_cache.cache_data

  unfoldable pub mngr_reset : CacheMngr → CacheMngr
  mngr_reset m = record {
    stmt_cache =
        if not (is_binlog_empty st m.stmt_cache) then Data.reset st m.stmt_cache else m.stmt_cache;
    trx_cache =
        if not (is_binlog_empty st m.trx_cache.cache_data)
        then Trx.reset st m.trx_cache
        else m.trx_cache;
  }

  unfoldable pub mngr_has_empty_transaction : CacheMngr → Bool
  mngr_has_empty_transaction m =
      is_empty_or_has_empty_transaction st m.trx_cache.cache_data
      && is_empty_or_has_empty_transaction st m.stmt_cache
      && not (mngr_is_binlog_empty m)

  -- The flush of the transaction cache, whose reset is its own.
  unfoldable pub flush_trx : Io → TrxCache S → Log S → Flusher → Bool → TrxCache S × Flushed
  flush_trx io c log f wrote_xid =
      let (d, r) = flush io 0 c.cache_data log f wrote_xid in
      ((if c.cache_data.flags.finalized then Trx.reset st c else record c { cache_data = d }), r)

  -- The two caches in turn; bytes_written keeps its old value after an error.
  unfoldable pub mngr_flush : Io → Io → ℕ → CacheMngr → Log S → Flusher → Bool → CacheMngr × Flushed
  mngr_flush io io' bytes m log f wrote_xid =
      let (stmt, r) = flush io 0 m.stmt_cache log f wrote_xid in
      let (trx, r') = flush_trx io' m.trx_cache r.log r.flusher r.wrote_xid in
      if r.error then (record m { stmt_cache = stmt }, record r { bytes_written = bytes }) else (
        record { stmt_cache = stmt; trx_cache = trx },
        record r' {
          bytes_written = if r'.error then bytes else r.bytes_written + r'.bytes_written;
        },
      )
