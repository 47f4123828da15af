-- ===== src/Commit/Tests.antt =====
-- Two sessions, the first of which has a transaction with an XID, in a group commit.
use knowledge_base.Base.{
  ℕ, pos, ◌+ℤ◌, ◌-ℤ◌, ◌*◌, ◌+◌, ◌<◌, Bool, true, false, none, some, List, [], ◌∷◌, ◌++◌, All, ◌≡◌,
  refl, arith,
}
use knowledge_base.Tracking.Thd.{other, is_trx_unsafe_for_parallel_slave}
use knowledge_base.Tracking.Clock
use knowledge_base.Tracking.CommitOrder
use knowledge_base.Tracking.Tracker
use knowledge_base.Cache.Storage.{bytes_storage}
use knowledge_base.Cache.Data.{CacheData}
use knowledge_base.Cache.Flush.{
  no_error, is_flush_error, Io, mngr_flush, flush, flush_finalized, flush_trx, numbered,
  write_transaction, write_cache,
}
use knowledge_base.Cache.Flush.Numbers.{Keeps}
use knowledge_base.Commit.Group.{
  Call, ha_flush_logs, sync, after_flush, ha_commit_low, update_commit_group, after_commit, Session,
  Binlog, finish_commit, finish_engines, finish_gtid, update_max_committed, engine_commit,
  release_xid, dec_prep_xids, run_after_commit, inc_prep_xids, flush_thread_caches,
}
use knowledge_base.Commit.Stages.{
  process_flush_stage_queue, process_commit_stage_queue, sync_binlog_file, flush_queue, each,
  commit_one, group_updated, process_after_commit_stage_queue, flush_cache_to_file,
  call_after_sync_hook, raise_binlog_end_pos, end_pos, assign_automatic_gtids_to_flush_group,
}
use knowledge_base.Commit.Stages.Each.{engine_commits}
use knowledge_base.Commit.Stages.Failure.{process_flush_stage_queue-failed}
use knowledge_base.Commit.Stages.Numbers.{stages-IsNumbered}
use knowledge_base.Commit.Stages.Sync.{syncs, sync_rounds, sync_rounds-Periodic}
use knowledge_base.Commit.Ordered.{
  Options, Answers, Enrolled, Outcome, stopped, led, ordered_commit, lead_from_flush, lead_flush,
  enter_commit_stage, leave_stages, finish_leader, commit_queue, sync_queue, enter_sync_stage,
}
use knowledge_base.Commit.Ordered.Order.{commit_queue-in_order}
use knowledge_base.Commit.Ordered.Prepared.{prep_xids-Settled}
use knowledge_base.Commit.Ordered.Stopped.{enter_sync_stage-stopped}

abbrev cache : Bool → Bool → List ℕ → CacheData (List ℕ)
cache transactional finalized bytes = record {
  flags = record {
    transactional = transactional;
    incident = false;
    immediate = false;
    finalized = finalized;
    with_xid = transactional;
    with_sbr = false;
    with_rbr = true;
    with_start = true;
    with_end = true;
    with_content = true;
  };
  cache_state_map = [];
  event_counter = 3;
  compressed_size = 0;
  decompressed_size = 0;
  compression_type = 255;
  cache = bytes;
  pending = none;
  binlog_cache_use = 0;
  binlog_cache_disk_use = 0;
}

abbrev io : Bool → Io
io gtid_fails = record {
  gtid_fails = gtid_fails;
  copy_fails = false;
  incident_fails = false;
  micro_time = 1000;
}

abbrev session : ℕ → Bool → Session bytes_storage 2 80020 999999
session id gtid_fails = record {
  id = id;
  flusher = record {
    thd = record {
      sequence_number = pos 0;
      last_committed = pos 0;
      sql_command = other 0;
      alter_admin_partition = false;
      write_set = [];
      has_missing_keys = false;
      has_related_foreign_keys = false;
      write_set_limit_reached = false;
      is_empty_transaction = false;
      write_set_extraction = 2;
      last_session_sequence_number = pos 0;
    };
    commit_error = no_error;
    original_commit_timestamp = none;
    original_server_version = none;
    slave_thread = false;
    is_binlog_applier = false;
    gtid_timestamps_warning_logged = false;
  };
  cache_mngr = record {
    stmt_cache = cache false false [];
    trx_cache = record {
      cache_data = cache true true (4 ∷ 5 ∷ []);
      cannot_rollback = false;
      before_stmt_pos = 0;
    };
  };
  flags = record { real_commit = true; xid_written = false; commit_low = true; run_hooks = true };
  tx_commit_pending = true;
  automatic_gtid = true;
  owns_gtid = true;
  trans_pos = 0;
  service = record {
    gno_exhausted = false;
    stmt_io = io false;
    trx_io = io gtid_fails;
    position = 100 + id;
    commit_fails = false;
    keeps_commit_low = false;
    keeps_gtid = false;
  };
}

abbrev two : List (Session bytes_storage 2 80020 999999)
two = session 7 false ∷ session 8 false ∷ []

abbrev failing : List (Session bytes_storage 2 80020 999999)
failing = session 7 true ∷ session 8 true ∷ []

abbrev server : Binlog bytes_storage 2 80020 999999
server = record {
  log = record { tracker = Tracker.init; groups = [] };
  is_open = true;
  prep_xids = pos 0;
  sync_counter = 0;
  position = 4;
  binlog_end_pos = 4;
  calls = [];
}

abbrev answers : Bool → Answers
answers sync_fails = record {
  order_wait = none;
  commit_order_thd = false;
  real_file_size = 500;
  file_flush_fails = false;
  after_flush_fails = false;
  sync_fails = sync_fails;
  active = true;
  after_sync = none;
  is_rotating_caused_by_incident = false;
  rotate_fails = false;
  check_purge = false;
}

commit_queue-in_order_example :
    let (b', q', _) =
      commit_queue bytes_storage 2 80020 999999 (answers false) false false server two in
    (engine_commits b'.calls ≡ [] ++ (7 ∷ 8 ∷ []))
    × All
        (λ (s : Session bytes_storage 2 80020 999999).
          (later : Binlog bytes_storage 2 80020 999999)
          → engine_commits (finish_commit bytes_storage 2 80020 999999 later s).0.calls
            ≡ engine_commits later.calls)
        q'
unfolding engine_commits
commit_queue-in_order_example =
    commit_queue-in_order bytes_storage 2 80020 999999 (answers false) false false server two
      (refl, (refl, tt))

abbrev flushed : Binlog bytes_storage 2 80020 999999
flushed =
    (process_flush_stage_queue bytes_storage 2 80020 999999 false 500 1000 server two).0.binlog

-- Both sessions count after the stage FLUSH.
flushed_example : flushed.prep_xids ≡ pos 2
unfolding process_flush_stage_queue flush_queue assign_automatic_gtids_to_flush_group
    flush_thread_caches mngr_flush flush_trx flush flush_finalized is_flush_error numbered
    write_transaction write_cache inc_prep_xids ◌+ℤ◌
flushed_example = refl

prep_xids-Settled_example :
    let r = (process_flush_stage_queue bytes_storage 2 80020 999999 false 500 1000 server two).0 in
    let (b', q') =
      process_commit_stage_queue bytes_storage 2 80020 999999
        (record flushed { prep_xids = flushed.prep_xids +ℤ pos 0 })
        (r.queue ++ []) in
    (b'.prep_xids ≡ pos 0)
    × All (λ (s : Session bytes_storage 2 80020 999999). s.flags.xid_written ≡ false) q'
prep_xids-Settled_example =
    prep_xids-Settled bytes_storage 2 80020 999999 false 500 1000 server
      (record flushed { prep_xids = flushed.prep_xids +ℤ pos 0 }) two [] (refl, (refl, tt)) refl

all_fail :
    (process_flush_stage_queue bytes_storage 2 80020 999999 false 500 1000 server
      failing).0.flush_error
    ≡ true
unfolding process_flush_stage_queue flush_queue assign_automatic_gtids_to_flush_group
    flush_thread_caches mngr_flush flush flush_trx flush_finalized is_flush_error write_transaction
all_fail = refl

process_flush_stage_queue-failed_example :
    let (r, do_rotate) =
      process_flush_stage_queue bytes_storage 2 80020 999999 false 500 1000 server failing in
    All
      (λ (s : Session bytes_storage 2 80020 999999). is_flush_error s.flusher.commit_error ≡ true)
      r.queue
    × (r.total_bytes ≡ 0)
    × (do_rotate ≡ false)
    × (r.binlog.prep_xids ≡ pos 0)
process_flush_stage_queue-failed_example =
    process_flush_stage_queue-failed bytes_storage 2 80020 999999 false 500 1000 server failing
      all_fail

sync_rounds-Periodic_example :
    let b' =
      sync_rounds bytes_storage 2 80020 999999 2 server
        ((two, false) ∷ (two, true) ∷ (two, false) ∷ []) in
    (b'.sync_counter < 2)
    × ((k : ℕ) × (syncs b'.calls ≡ syncs [] + k) × (0 + 3 ≡ k * 2 + b'.sync_counter))
sync_rounds-Periodic_example =
    sync_rounds-Periodic bytes_storage 2 80020 999999 2 server
      ((two, false) ∷ (two, true) ∷ (two, false) ∷ []) refl (omega arith) (omega arith)

stages-IsNumbered_example :
    Keeps server.log flushed.log
    × Keeps server.log (process_commit_stage_queue bytes_storage 2 80020 999999 server two).0.log
stages-IsNumbered_example =
    stages-IsNumbered bytes_storage 2 80020 999999 false 500 1000 server two (tt, tt)

abbrev strict : Options
strict = record { sync_period = 1; max_size = 1000; order_commits = true; abort_server = true }

abbrev alone : Binlog bytes_storage 2 80020 999999 → Enrolled bytes_storage 2 80020 999999
alone b = some (b, [])

not_synchronised :
    (sync_queue bytes_storage 2 80020 999999 strict (answers true) false 200 server (two ++ [])).2
    ≡ true
unfolding sync_queue sync_binlog_file
not_synchronised = refl

enter_sync_stage-stopped_example :
    (b' : Binlog bytes_storage 2 80020 999999) × (enter_sync_stage bytes_storage 2 80020 999999
        strict
        (answers true)
        alone
        alone
        false
        false
        200
        server
        two
      ≡ stopped b')
    × (engine_commits b'.calls ≡ engine_commits [])
enter_sync_stage-stopped_example =
    enter_sync_stage-stopped bytes_storage 2 80020 999999 strict (answers true) alone alone false
      false 200 server server two [] refl refl not_synchronised

-- A group that one session leads through all stages: the calls, in their order.
abbrev calls_of : Outcome bytes_storage 2 80020 999999 → List Call
calls_of (led b q) = b.calls
calls_of _ = []

abbrev joined : Binlog bytes_storage 2 80020 999999 → Enrolled bytes_storage 2 80020 999999
joined b = some (b, session 8 false ∷ [])

ordered_commit_example :
    calls_of (
      ordered_commit bytes_storage 2 80020 999999 strict
        (answers false)
        joined
        alone
        alone
        server
        (session 7 false)
        true
        false)
    ≡ ha_flush_logs
      ∷ after_flush 108
      ∷ sync
      ∷ ha_commit_low 7
      ∷ ha_commit_low 8
      ∷ update_commit_group (7 ∷ 8 ∷ [])
      ∷ after_commit 7
      ∷ after_commit 8
      ∷ []
unfolding ordered_commit lead_from_flush lead_flush process_flush_stage_queue flush_queue
    assign_automatic_gtids_to_flush_group flush_thread_caches mngr_flush flush flush_trx
    flush_finalized is_flush_error numbered write_transaction write_cache flush_cache_to_file
    enter_sync_stage sync_queue sync_binlog_file enter_commit_stage commit_queue
    process_commit_stage_queue process_after_commit_stage_queue each commit_one update_max_committed
    engine_commit release_xid dec_prep_xids run_after_commit group_updated leave_stages
    finish_leader finish_commit finish_engines finish_gtid call_after_sync_hook Tracker.step
    Tracker.update_max_committed inc_prep_xids Tracker.get_dependency Tracker.init
    Tracker.by_commit_order CommitOrder.step ◌+ℤ◌ CommitOrder.get_dependency
    is_trx_unsafe_for_parallel_slave CommitOrder.update_max_committed Clock.set_if_greater
    raise_binlog_end_pos end_pos Clock.cas_loop ◌-ℤ◌
ordered_commit_example = refl
