-- ===== src/Commit/Group.antt =====
-- The sessions of a group commit and the state of MYSQL_BIN_LOG that their stages share.
pub mod Kept
use knowledge_base.Base.{
  ℕ, ℤ, pos, ◌+ℤ◌, ◌-ℤ◌, eqb_ℤ, Bool, true, false, not, ◌&&◌, Option, none, some, List, [], ◌∷◌,
  ◌++◌, ltb, if◌then◌else◌,
}
use knowledge_base.Tracking.Thd.{Thd}
use knowledge_base.Tracking.Clock.{seq_uninit}
use knowledge_base.Tracking.Tracker
use knowledge_base.Tracking.Tracker.{Tracker}
use knowledge_base.Cache.Storage.{Storage}
use knowledge_base.Cache.Flush.{
  CommitError, no_error, flush_error, gno_exhausted_error, sync_error, engine_error, Flusher, Io,
  Log, CacheMngr, mngr_flush, mngr_reset,
}

unfoldable pub is_none : CommitError → Bool
is_none no_error = true
is_none flush_error = false
is_none gno_exhausted_error = false
is_none sync_error = false
is_none engine_error = false

-- commit_error == CE_COMMIT_ERROR
unfoldable pub is_engine_error : CommitError → Bool
is_engine_error no_error = false
is_engine_error flush_error = false
is_engine_error gno_exhausted_error = false
is_engine_error sync_error = false
is_engine_error engine_error = true

-- Transaction_ctx::m_flags, as far as the commit uses them.
pub record CommitFlags : Type 0 where
  pub real_commit : Bool
  pub xid_written : Bool
  pub commit_low : Bool
  pub run_hooks : Bool

-- What the files and the engines do for one session.
pub record Service : Type 0 where
  -- generate_automatic_gtid fails
  pub gno_exhausted : Bool
  -- the flush of the statement cache and of the transaction cache
  pub stmt_io : Io
  pub trx_io : Io
  -- m_binlog_file->position() after the flush
  pub position : ℕ
  -- ha_commit_low fails
  pub commit_fails : Bool
  -- ha_commit_low leaves m_flags.commit_low set
  pub keeps_commit_low : Bool
  -- the session still owns a GTID after update_commit_group
  pub keeps_gtid : Bool

-- The calls that leave the file: of the engines, of the files, of the plugins and of the GTID state.
pub data Call : Type 0 where
  ha_flush_logs sync : Call
  after_flush after_sync : ℕ → Call
  ha_commit_low after_commit update_on_commit update_on_rollback : ℕ → Call
  update_commit_group : List ℕ → Call
  rotate purge : Call

module _ {S : Type 0} (st : Storage S) (extraction server_version unknown : ℕ) where
  pub record Session : Type 0 where
    -- thread_id()
    pub id : ℕ
    pub flusher : Flusher
    pub cache_mngr : CacheMngr st extraction server_version unknown
    pub flags : CommitFlags
    pub tx_commit_pending : Bool
    -- variables.gtid_next.type == AUTOMATIC_GTID
    pub automatic_gtid : Bool
    pub owns_gtid : Bool
    -- the position that set_trans_pos keeps
    pub trans_pos : ℕ
    pub service : Service

  pub record Binlog : Type 0 where
    pub log : Log S
    pub is_open : Bool
    -- m_atomic_prep_xids
    pub prep_xids : ℤ
    pub sync_counter : ℕ
    pub position : ℕ
    pub binlog_end_pos : ℕ
    -- what was called so far
    pub calls : List Call

  abbrev pub call : Call → Binlog → Binlog
  call c b = record b { calls = b.calls ++ (c ∷ []) }

  abbrev pub set_error : CommitError → Session → Session
  set_error e s = record s { flusher = record s.flusher { commit_error = e } }

  -- The error of current_thd, the session at the head of its queue.
  unfoldable pub mark : CommitError → List Session → List Session
  mark e [] = []
  mark e (s ∷ q) = set_error e s ∷ q

  unfoldable pub inc_prep_xids : Binlog → Session → Binlog × Session
  inc_prep_xids b s = (
    record b { prep_xids = b.prep_xids +ℤ pos 1 },
    record s { flags = record s.flags { xid_written = true } },
  )

  unfoldable pub dec_prep_xids : Binlog → Session → Binlog × Session
  dec_prep_xids b s = (
    record b { prep_xids = b.prep_xids -ℤ pos 1 },
    record s { flags = record s.flags { xid_written = false } },
  )

  -- The guarded call of Transaction_dependency_tracker::update_max_committed, with its lock held. The
  -- fuel of its loop is enough, so the case of none does not occur.
  unfoldable pub update_max_committed : Binlog → Session → Binlog × Session
  update_max_committed b s =
      if eqb_ℤ s.flusher.thd.sequence_number seq_uninit
      then (b, s)
      else elim (Tracker.update_max_committed b.log.tracker s.flusher.thd) [
        | none ↦ (b, s)
        | some r ↦ (
          record b { log = record b.log { tracker = r.0 } },
          record s { flusher = record s.flusher { thd = r.1 } },
        )
      ]

  unfoldable pub init_thd_variables : Session → Bool → Bool → Session
  init_thd_variables s all skip_commit = record s {
    tx_commit_pending = true;
    flusher = record s.flusher { commit_error = no_error };
    flags = record {
      real_commit = all;
      xid_written = false;
      commit_low = not skip_commit;
      run_hooks = not skip_commit;
    };
  }

  -- The result is the error and the number of bytes.
  unfoldable pub flush_thread_caches : Binlog → Session → Binlog × Session × Bool × ℕ
  flush_thread_caches b s =
      let (m, r) =
        mngr_flush st extraction server_version unknown s.service.stmt_io s.service.trx_io 0
          s.cache_mngr b.log s.flusher false in
      let b' = record b { log = r.log; position = s.service.position } in
      let s' = record s { cache_mngr = m; flusher = r.flusher } in
      if not r.error && ltb 0 r.bytes_written
      then (let placed = record s' { trans_pos = s.service.position } in
          if r.wrote_xid
          then ((inc_prep_xids b' placed).0, (inc_prep_xids b' placed).1, r.error, r.bytes_written)
          else (b', placed, r.error, r.bytes_written))
      else (b', s', r.error, r.bytes_written)

  -- The call of ha_commit_low, which resets the transaction's context.
  unfoldable pub engine_commit : Binlog → Session → Binlog × Session
  engine_commit b s = (
    call (ha_commit_low s.id) b,
    (let s' = record s { flags = record s.flags { commit_low = s.service.keeps_commit_low } } in
        if s.service.commit_fails then set_error engine_error s' else s'),
  )

  -- The hook after_commit, unless the commit failed or the hook has run.
  unfoldable pub run_after_commit : Binlog → Session → Binlog × Session
  unfolding is_engine_error
  run_after_commit b s =
      if s.flags.run_hooks && not (is_engine_error s.flusher.commit_error)
      then (call (after_commit s.id) b, record s { flags = record s.flags { run_hooks = false } })
      else (b, s)

  -- The counter of a session whose XID is written.
  unfoldable pub release_xid : Binlog → Session → Binlog × Session
  release_xid b s = if s.flags.xid_written then dec_prep_xids b s else (b, s)

  unfoldable pub finish_gtid : Binlog → Session → Binlog
  unfolding is_none
  finish_gtid b s =
      if s.owns_gtid
      then (if is_none s.flusher.commit_error
          then call (update_on_commit s.id) b
          else call (update_on_rollback s.id) b)
      else b

  -- The caches of a session whose log was closed meanwhile.
  unfoldable pub cleared : Binlog → Session → Session
  cleared b s =
      if b.is_open
      then s
      else record s { cache_mngr = mngr_reset st extraction server_version unknown s.cache_mngr }

  -- The commit in the engines, if it is still to be done, and the counter.
  unfoldable pub finish_engines : Binlog → Session → Binlog × Session
  finish_engines b s =
      if s.flags.commit_low
      then (let (committed, c) = engine_commit b s in
          let (released, d) = release_xid committed c in run_after_commit released d)
      else release_xid b s

  unfoldable pub finish_commit : Binlog → Session → Binlog × Session × Bool
  unfolding cleared
  finish_commit b s =
      let (b', s') = update_max_committed b (cleared b s) in
      let (b'', s'') = finish_engines b' s' in
      (finish_gtid b'' s'', s'', is_engine_error s''.flusher.commit_error)
