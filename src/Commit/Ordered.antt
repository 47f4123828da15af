-- ===== src/Commit/Ordered.antt =====
-- MYSQL_BIN_LOG::ordered_commit: the way of one session through the stages.
pub mod Order
pub mod Prepared
pub mod Stopped
use knowledge_base.Base.{
  ℕ, suc, ◌+◌, Bool, true, false, not, ◌&&◌, ◌||◌, Option, none, some, List, [], ◌∷◌, ◌++◌, ltb,
  leb, ◌==◌, if◌then◌else◌,
}
use knowledge_base.Cache.Storage.{Storage}
use knowledge_base.Cache.Flush.{CommitError, engine_error}
use knowledge_base.Commit.Group.{
  is_none, is_engine_error, rotate, purge, after_flush, Session, Binlog, call, set_error,
  init_thd_variables, finish_commit,
}
use knowledge_base.Commit.Stages.{
  Queue, State, flush_engine_logs, FlushedQueue, process_flush_stage_queue, flush_cache_to_file,
  update_binlog_end_pos, raise_binlog_end_pos, sync_binlog_file, end_pos, call_after_sync_hook,
  process_commit_stage_queue, process_after_commit_stage_queue,
}

pub data StageId : Type 0 where
  binlog_flush_stage sync_stage commit_stage : StageId

-- The options that the commit reads.
pub record Options : Type 0 where
  pub sync_period : ℕ
  pub max_size : ℕ
  -- opt_binlog_order_commits || Clone_handler::need_commit_order()
  pub order_commits : Bool
  -- binlog_error_action == ABORT_SERVER
  pub abort_server : Bool

-- What the files, the plugins and the managers answer during one group commit.
pub record Answers : Type 0 where
  -- the error that Commit_order_manager::wait leaves, if it is called and fails
  pub order_wait : Option CommitError
  pub commit_order_thd : Bool
  pub real_file_size : ℕ
  pub file_flush_fails : Bool
  pub after_flush_fails : Bool
  pub sync_fails : Bool
  -- is_active of the file that the last session wrote to
  pub active : Bool
  pub after_sync : Option Bool
  pub is_rotating_caused_by_incident : Bool
  pub rotate_fails : Bool
  pub check_purge : Bool

abbrev can_commit_in_order : Options → Bool → Bool
can_commit_in_order o sync_error = o.order_commits && (not sync_error || not o.abort_server)

module _ {S : Type 0} (st : Storage S) (extraction server_version unknown : ℕ) where
  abbrev pub Server : Type 0
  Server = Binlog st extraction server_version unknown

  abbrev pub Sessions : Type 0
  Sessions = List (Session st extraction server_version unknown)

  -- change_stage: none if the session is a follower, and otherwise the log as the leader finds it and
  -- the sessions that stand behind its own in the queue that it fetches.
  abbrev pub Enrolled : Type 0
  Enrolled = Option (Server × Sessions)

  -- How ordered_commit ends for its session, the first of the queue.
  pub data Outcome : Type 0 where
    -- the wait for its turn failed
    refused : Session st extraction server_version unknown → Outcome
    -- another session leads on from here, then finish_commit follows
    follows : StageId → Server → Sessions → Outcome
    -- exec_binlog_error_action_abort
    stopped : Server → Outcome
    led : Server → Sessions → Outcome

  -- binlog_error_action: none if the server is stopped, and otherwise the log is closed.
  unfoldable pub handle_binlog_flush_or_sync_error : Options → Server → Option (Server)
  handle_binlog_flush_or_sync_error o b =
      if o.abort_server then none else some (record b { is_open = false })

  -- finish_commit of the leader, and the rotation.
  unfoldable pub finish_leader : Answers → Bool → Server → Sessions → Server × Sessions
  unfolding is_none
  finish_leader a do_rotate b [] = (b, [])
  finish_leader a do_rotate b (s ∷ q) =
      let (b', s', _) = finish_commit st extraction server_version unknown b s in
      if do_rotate && is_none s'.flusher.commit_error && not a.is_rotating_caused_by_incident
      then (let rotated = call st extraction server_version unknown rotate b' in
          if a.rotate_fails
          then (rotated, set_error st extraction server_version unknown engine_error s' ∷ q)
          else if a.check_purge
          then (call st extraction server_version unknown purge rotated, s' ∷ q)
          else (rotated, s' ∷ q))
      else (b', s' ∷ q)

  -- What follows once the error of the stages is known.
  unfoldable pub leave_stages : Options → Answers → Bool → Bool → Server → Sessions → Outcome
  leave_stages o a do_rotate sync_error b q =
      let done = λ (b' : Server).
        led (finish_leader a do_rotate b' q).0 (finish_leader a do_rotate b' q).1 in
      if sync_error
      then elim (handle_binlog_flush_or_sync_error o b) [ none ↦ stopped b | some b' ↦ done b' ]
      else done b

  -- The commit of the queue in order.
  unfoldable pub commit_queue : Answers → Bool → Bool → Server → Sessions → Server × Sessions × Bool
  commit_queue a flush_error sync_error b q =
      let (hooked, error) =
        if not flush_error && not sync_error
        then call_after_sync_hook st extraction server_version unknown a.after_sync b q
        else (b, sync_error) in
      let (committed, q') =
        process_commit_stage_queue st extraction server_version unknown hooked q in
      let (b', q'') =
        process_after_commit_stage_queue st extraction server_version unknown committed q' in
      (b', q'', error)

  -- From the label commit_stage on.
  unfoldable pub enter_commit_stage :
      Options → Answers → (Server → Enrolled) → Bool → Bool → Bool → Server → Sessions → Outcome
  enter_commit_stage o a enrol do_rotate flush_error sync_error b q =
      if can_commit_in_order o sync_error
      then elim (enrol b) [
        | none ↦ follows commit_stage b q
        | some found ↦
            let (b', q', error) = commit_queue a flush_error sync_error found.0 (q ++ found.1) in
            leave_stages o a do_rotate error b' q'
      ]
      else (let (hooked, error) =
            if not flush_error && not sync_error
            then call_after_sync_hook st extraction server_version unknown a.after_sync b q
            else (b, sync_error) in
          leave_stages o a do_rotate error hooked q)

  -- The stage SYNC of its leader.
  unfoldable pub sync_queue :
      Options → Answers → Bool → ℕ → Server → Sessions → Server × Sessions × Bool
  sync_queue o a flush_error total_bytes b q =
      let (b', q', sync_error, _) =
        if not flush_error && ltb 0 total_bytes
        then sync_binlog_file st extraction server_version unknown false o.sync_period a.sync_fails
            b q
        else (b, q, false, false) in
      if o.sync_period == 1 && not flush_error && not sync_error
      then (
        raise_binlog_end_pos st extraction server_version unknown a.active
            (end_pos st extraction server_version unknown q') b',
        q',
        sync_error,
      )
      else (b', q', sync_error)

  -- From the stage SYNC on, for the queue of the leader of the flush.
  unfoldable pub enter_sync_stage :
      Options
      → Answers
      → (Server → Enrolled)
      → (Server → Enrolled)
      → Bool
      → Bool
      → ℕ
      → Server
      → Sessions
      → Outcome
  enter_sync_stage o a enrol_sync enrol_commit do_rotate flush_error total_bytes b q =
      elim (enrol_sync b) [
        | none ↦ follows sync_stage b q
        | some found ↦
            let (b', q', sync_error) =
              sync_queue o a flush_error total_bytes found.0 (q ++ found.1) in
            enter_commit_stage o a enrol_commit do_rotate flush_error sync_error b' q'
      ]

  -- The stage FLUSH of its leader, of which the log is open: the state, the queue, flush_error, the
  -- number of bytes and do_rotate. What is done on an error is left to the caller.
  unfoldable pub lead_flush :
      Options → Answers → Server → Sessions → Server × Sessions × Bool × ℕ × Bool
  unfolding update_binlog_end_pos
  lead_flush o a b q =
      let (r, do_rotate) =
        process_flush_stage_queue st extraction server_version unknown a.commit_order_thd
          a.real_file_size o.max_size b q in
      let (q', error, end) =
        if not r.flush_error && ltb 0 r.total_bytes
        then flush_cache_to_file st extraction server_version unknown a.file_flush_fails r.binlog
            r.queue 0
        else (r.queue, r.flush_error, 0) in
      if error
      then (r.binlog, q', true, r.total_bytes, do_rotate)
      else (let hooked = call st extraction server_version unknown (after_flush end) r.binlog in
          (
            (if o.sync_period == 1
                then hooked
                else update_binlog_end_pos st extraction server_version unknown hooked),
            q',
            a.after_flush_fails,
            r.total_bytes,
            do_rotate,
          ))

  unfoldable pub lead_from_flush :
      Options → Answers → (Server → Enrolled) → (Server → Enrolled) → Server → Sessions → Outcome
  lead_from_flush o a enrol_sync enrol_commit b q =
      let (b', q', flush_error, total_bytes, do_rotate) = lead_flush o a b q in
      let onward = enter_sync_stage o a enrol_sync enrol_commit do_rotate flush_error total_bytes in
      if flush_error
      then elim (handle_binlog_flush_or_sync_error o b') [
        | none ↦ stopped b'
        | some closed ↦ onward closed q'
      ]
      else onward b' q'

  unfoldable pub ordered_commit :
      Options
      → Answers
      → (Server → Enrolled)
      → (Server → Enrolled)
      → (Server → Enrolled)
      → Server
      → Session st extraction server_version unknown
      → Bool
      → Bool
      → Outcome
  unfolding flush_engine_logs init_thd_variables
  ordered_commit o a enrol_flush enrol_sync enrol_commit b thd all skip_commit =
      let s = init_thd_variables st extraction server_version unknown thd all skip_commit in
      elim a.order_wait [
        | some e ↦ refused (set_error st extraction server_version unknown e s)
        | none ↦ elim (enrol_flush b) [
          | none ↦ follows binlog_flush_stage b (s ∷ [])
          | some found ↦
              let q = s ∷ found.1 in
              if found.0.is_open
              then lead_from_flush o a enrol_sync enrol_commit found.0 q
              else enter_commit_stage o a enrol_commit false false false
                  (flush_engine_logs st extraction server_version unknown true a.commit_order_thd
                    found.0)
                  q
        ]
      ]
