-- ===== src/Cache/Trx/Handlers.antt =====
-- binlog_savepoint_set, binlog_savepoint_rollback and binlog_trans_log_savepos: what the SQL layer calls
-- for SAVEPOINT and ROLLBACK TO. The query event of the statement goes to the transaction cache.
use knowledge_base.Base.{
  ℕ, ◌<◌, ◌≡◌, refl, Bool, true, false, Option, none, some, List, if◌then◌else◌,
}
use knowledge_base.Cache.Storage.{Storage, Laws}
use knowledge_base.Cache.Data
use knowledge_base.Cache.Data.{CachedEvent, cache_state_checkpoint, remove_pending_event}
use knowledge_base.Cache.Data.Content.{Serializable}
use knowledge_base.Cache.Trx.{TrxCache, restore_savepoint}
use knowledge_base.Cache.Trx.Logging.{Thd, write_event}
use knowledge_base.Cache.Trx.Logging.Flushed.{write_event-none}
use knowledge_base.Cache.Trx.Savepoint.{Restored, log_events, savepoint, savepoint-Restored}

module _ {S : Type 0} (st : Storage S) where
  -- The position of the savepoint, and the cache with its state recorded there.
  unfoldable pub binlog_trans_log_savepos : TrxCache S → TrxCache S × ℕ
  binlog_trans_log_savepos c =
      let pos = st.size c.cache_data.cache in
      (record c { cache_data = cache_state_checkpoint st pos c.cache_data }, pos)

  -- `query` is the event of SAVEPOINT. The position is none after an error, when it is not set.
  unfoldable pub binlog_savepoint_set :
      Thd → Bool → CachedEvent → TrxCache S → Thd × TrxCache S × Option ℕ
  binlog_savepoint_set thd no_filter query c =
      let (thd', logged, error) = write_event st thd no_filter query c in
      let (marked, pos) = binlog_trans_log_savepos logged in
      if error then (thd', logged, none) else (thd', marked, some pos)

  -- `unsafe` is trans_cannot_safely_rollback(thd), and `query` the event of ROLLBACK TO. The Boolean is
  -- true for an error.
  unfoldable pub binlog_savepoint_rollback :
      Bool → Thd → Bool → CachedEvent → ℕ → TrxCache S → Thd × TrxCache S × Bool
  binlog_savepoint_rollback unsafe thd no_filter query pos c =
      let cleared = if thd.in_sub_stmt then record thd { binlog_table_maps = 0 } else thd in
      if unsafe
      then write_event st thd no_filter query c
      else (cleared, restore_savepoint st pos c, false)

  -- The cache and the position after a SAVEPOINT whose event was written without an error.
  module _ (laws : Laws st) where
    set_lem :
        (thd : Thd) (no_filter : Bool) (query : CachedEvent) (c : TrxCache S)
        → let r = write_event st thd no_filter query c in
          r.2 ≡ false
          → binlog_savepoint_set thd no_filter query c
            ≡ (r.0, savepoint st laws r.1, some (st.size r.1.cache_data.cache))
    unfolding binlog_savepoint_set binlog_trans_log_savepos
    set_lem thd no_filter query c quiet = rw quiet refl

    -- Rows that are pending in the cache.
    abbrev pub with_pending : Option CachedEvent → TrxCache S → TrxCache S
    with_pending pending c = record c { cache_data = record c.cache_data { pending = pending } }

    pending_dropped :
        (pos : ℕ) (pending : Option CachedEvent) (logged c : TrxCache S)
        → Restored st laws logged.cache_data (restore_savepoint st pos c).cache_data
        → Restored st laws logged.cache_data
            (restore_savepoint st pos (with_pending pending c)).cache_data
    unfolding restore_savepoint Data.truncate remove_pending_event
    pending_dropped pos pending logged c h = h

    -- In a session that does not unite events, with an open log, let the event of a SAVEPOINT be written
    -- without an error, so that the cache then holds bytes. Then no rows event is pending any more, the
    -- position of the savepoint is returned, and however many serializable events follow and whatever
    -- rows event is pending then, a ROLLBACK TO it of a transaction that can be rolled back safely
    -- succeeds and brings the cache back to its content right after the SAVEPOINT statement.
    pub binlog_savepoint_rollback-Restored :
        (thd later : Thd) (no_filter : Bool) (query back : CachedEvent) (c : TrxCache S)
        (es : List CachedEvent) (pending : Option CachedEvent)
        → thd.do_union ≡ false
        → thd.is_open_at_flush ≡ true
        → (write_event st thd no_filter query c).2 ≡ false
        → 0 < st.size (write_event st thd no_filter query c).1.cache_data.cache
        → Serializable es
        → let logged = (write_event st thd no_filter query c).1 in
          (logged.cache_data.pending ≡ none)
          × ((pos : ℕ) × (set : TrxCache S) × (binlog_savepoint_set thd no_filter query c
                ≡ ((write_event st thd no_filter query c).0, set, some pos))
              × (let r =
                    binlog_savepoint_rollback false later no_filter back pos
                      (with_pending pending (log_events st laws es set)) in
                  (r.2 ≡ false) × Restored st laws logged.cache_data r.1.cache_data))
    unfolding binlog_savepoint_rollback
    binlog_savepoint_rollback-Restored thd later no_filter query back c es pending alone opened
          quiet some_bytes ok =
        let logged = (write_event st thd no_filter query c).1 in
        (
          write_event-none st thd no_filter query c alone opened,
          (
            st.size logged.cache_data.cache,
            savepoint st laws logged,
            set_lem thd no_filter query c quiet,
            (
              refl,
              pending_dropped (st.size logged.cache_data.cache) pending logged
                  (log_events st laws es (savepoint st laws logged))
                  (savepoint-Restored st laws logged es ok some_bytes),
            ),
          ),
        )
