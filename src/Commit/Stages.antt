-- ===== src/Commit/Stages.antt =====
-- The stages of the group commit, each run by its leader for a whole queue of sessions, whose first is
-- the leader itself.
pub mod Each
pub mod Commits
pub mod Counted
pub mod Failure
pub mod Sync
pub mod Numbers
use knowledge_base.Base.{
  ℕ, suc, ◌+◌, ◌%◌, ◌^◌, pos, eqb_ℤ, Bool, true, false, not, ◌&&◌, ◌||◌, Option, none, some, List,
  [], ◌∷◌, ◌++◌, ltb, leb, ◌==◌, if◌then◌else◌,
}
use knowledge_base.Cache.Storage.{Storage}
use knowledge_base.Cache.Flush.{
  CommitError, flush_error, gno_exhausted_error, sync_error, engine_error,
}
use knowledge_base.Commit.Group.{
  is_none, Call, ha_flush_logs, sync, after_flush, after_sync, update_commit_group, Session, Binlog,
  call, set_error, mark, update_max_committed, flush_thread_caches, engine_commit, run_after_commit,
  release_xid,
}

-- ++sync_counter of an unsigned int.
abbrev pub next_count : ℕ → ℕ
next_count n = (n + 1) % 2 ^ 32

module _ {S : Type 0} (st : Storage S) (extraction server_version unknown : ℕ) where
  abbrev pub Queue : Type 0
  Queue = List (Session st extraction server_version unknown)

  abbrev pub State : Type 0
  State = Binlog st extraction server_version unknown

  -- One session after the other, as the loops over next_to_commit.
  unfoldable pub each :
      (State
        → Session st extraction server_version unknown
        → State × Session st extraction server_version unknown)
      → State
      → Queue
      → State × Queue
  each f b [] = (b, [])
  each f b (s ∷ q) = let (b', s') = f b s in let (b'', q') = each f b' q in (b'', s' ∷ q')

  abbrev pub ids : Queue → List ℕ
  ids [] = []
  ids (s ∷ q) = s.id ∷ ids q

  -- The sessions and whether a number could not be generated.
  unfoldable pub assign_automatic_gtids_to_flush_group : Queue → Queue × Bool
  assign_automatic_gtids_to_flush_group [] = ([], false)
  assign_automatic_gtids_to_flush_group (s ∷ q) =
      let (q', error) = assign_automatic_gtids_to_flush_group q in
      if s.automatic_gtid && s.service.gno_exhausted
      then (set_error st extraction server_version unknown gno_exhausted_error s ∷ q', true)
      else (s ∷ q', error)

  -- What is done once the queue is fetched; `commit_order_thd` tells whether the queue of the stage
  -- COMMIT_ORDER_FLUSH held a session.
  unfoldable pub flush_engine_logs : Bool → Bool → State → State
  flush_engine_logs check_and_skip_flush_logs commit_order_thd b =
      if not check_and_skip_flush_logs || (check_and_skip_flush_logs && commit_order_thd)
      then call st extraction server_version unknown ha_flush_logs b
      else b

  pub record FlushedQueue : Type 0 where
    pub binlog : State
    pub queue : Queue
    pub flush_error : Bool
    pub total_bytes : ℕ

  -- The loop that flushes the caches; `error` is flush_error before the first session.
  unfoldable pub flush_queue : State → Queue → Bool → ℕ → FlushedQueue
  flush_queue b [] error total_bytes = record {
    binlog = b;
    queue = [];
    flush_error = error;
    total_bytes = total_bytes;
  }
  flush_queue b (s ∷ q) error total_bytes =
      let (b', s', failed, bytes) = flush_thread_caches st extraction server_version unknown b s in
      let r = flush_queue b' q (if error then failed else error) (total_bytes + bytes) in
      record r { queue = s' ∷ r.queue }

  -- The last component is *rotate_var, from get_real_file_size() and the limit max_size.
  unfoldable pub process_flush_stage_queue : Bool → ℕ → ℕ → State → Queue → FlushedQueue × Bool
  unfolding flush_engine_logs
  process_flush_stage_queue commit_order_thd real_file_size max_size b q =
      let (named, _) = assign_automatic_gtids_to_flush_group q in
      let r = flush_queue (flush_engine_logs false commit_order_thd b) named true 0 in
      (r, ltb 0 r.total_bytes && leb max_size real_file_size)

  -- The flush of the file's cache: the queue, the result, and *end_pos_var.
  unfoldable pub flush_cache_to_file : Bool → State → Queue → ℕ → Queue × Bool × ℕ
  flush_cache_to_file fails b q end_pos =
      if fails
      then (mark st extraction server_version unknown flush_error q, true, end_pos)
      else (q, false, b.position)

  unfoldable pub update_binlog_end_pos : State → State
  update_binlog_end_pos b = record b { binlog_end_pos = b.position }

  -- With a file name and a position; `active` is is_active(file).
  unfoldable pub raise_binlog_end_pos : Bool → ℕ → State → State
  raise_binlog_end_pos active position b =
      if active && ltb b.binlog_end_pos position then record b { binlog_end_pos = position } else b

  -- ++sync_counter, which the guard reaches unless `force` or the period 0 decides before.
  unfoldable pub counted : Bool → ℕ → State → State
  counted force sync_period b =
      if not force && not (sync_period == 0)
      then record b { sync_counter = next_count b.sync_counter }
      else b

  -- The counter starts anew, and the file is synchronised if it is still open.
  unfoldable pub synchronise : Bool → State → Queue → State × Queue × Bool × Bool
  synchronise fails b q =
      let reset = record b { sync_counter = 0 } in
      if b.is_open
      then (let synced = call st extraction server_version unknown sync reset in
          if fails
          then (synced, mark st extraction server_version unknown sync_error q, true, false)
          else (synced, q, false, true))
      else (reset, q, false, true)

  -- The state, the queue, and the two results.
  unfoldable pub sync_binlog_file : Bool → ℕ → Bool → State → Queue → State × Queue × Bool × Bool
  unfolding counted synchronise
  sync_binlog_file force sync_period fails b q =
      let c = counted force sync_period b in
      if force || (not (sync_period == 0) && leb sync_period c.sync_counter)
      then synchronise fails c q
      else (c, q, false, false)

  -- get_trans_fixed_pos of the last session of the queue.
  unfoldable pub end_pos : Queue → ℕ
  end_pos [] = 0
  end_pos (s ∷ []) = s.trans_pos
  end_pos (s ∷ t ∷ q) = end_pos (t ∷ q)

  -- The position of the last session without an error.
  unfoldable pub last_pos : Queue → ℕ → ℕ
  unfolding is_none
  last_pos [] p = p
  last_pos (s ∷ q) p = last_pos q (if is_none s.flusher.commit_error then s.trans_pos else p)

  -- `hook` is none if no plugin listens, and otherwise tells whether it fails.
  unfoldable pub call_after_sync_hook : Option Bool → State → Queue → State × Bool
  call_after_sync_hook none b q = (b, false)
  call_after_sync_hook (some fails) b q =
      (call st extraction server_version unknown (after_sync (last_pos q 0)) b, fails)

  -- The commit of one session of the queue.
  unfoldable pub commit_one :
      State
      → Session st extraction server_version unknown
      → State × Session st extraction server_version unknown
  commit_one b s =
      let (b', s') = update_max_committed st extraction server_version unknown b s in
      if s'.flags.commit_low
      then engine_commit st extraction server_version unknown b' s'
      else (b', s')

  -- gtid_state->update_commit_group.
  unfoldable pub group_updated : Queue → Queue
  group_updated [] = []
  group_updated (s ∷ q) = record s { owns_gtid = s.service.keeps_gtid } ∷ group_updated q

  unfoldable pub process_commit_stage_queue : State → Queue → State × Queue
  process_commit_stage_queue b q =
      let (committed, q') = each commit_one b q in
      each (release_xid st extraction server_version unknown)
        (call st extraction server_version unknown (update_commit_group (ids q')) committed)
        (group_updated q')

  unfoldable pub process_after_commit_stage_queue : State → Queue → State × Queue
  process_after_commit_stage_queue = each (run_after_commit st extraction server_version unknown)
