-- ===== src/Cache/Trx/Savepoint.antt =====
-- binlog_trx_cache_data: ROLLBACK TO SAVEPOINT and the rollback of a statement.
use knowledge_base.Base.{
  ℕ, ◌≤◌, ◌<◌, ◌==◌, ==_iff, ◌≡◌, refl, ap, false, not, Option, none, some, List, [], ◌∷◌, find,
  find-insert, arith, if_cases,
}
use knowledge_base.Cache.Storage.{Storage, Laws}
use knowledge_base.Cache.Data
use knowledge_base.Cache.Data.{
  CacheData, CacheState, CachedEvent, current_state, cache_state_checkpoint, cache_state_rollback,
  remove_pending_event, write_event, note_event,
}
use knowledge_base.Cache.Data.Content.{Serializable, write_events}
use knowledge_base.Cache.Trx.{
  TrxCache, my_off_t_undef, set_prev_position, restore_prev_position, restore_savepoint,
}

module _ {S : Type 0} (st : Storage S) (laws : Laws st) where
  write_events-map :
      (es : List CachedEvent) (c : CacheData S)
      → Serializable es
      → (write_events st es c).cache_state_map ≡ c.cache_state_map
  unfolding write_events write_event note_event
  write_events-map [] c ok = refl
  write_events-map (e ∷ es) c ok =
      ground (arith, write_events-map es (write_event st (some e) c).0 ok.1, ok.0.1)

  write_events-cut :
      (es : List CachedEvent) (c : CacheData S) (pos : ℕ)
      → Serializable es
      → pos ≤ st.size c.cache
      → st.cut (write_events st es c).cache pos ≡ st.cut c.cache pos
  unfolding write_events write_event note_event
  write_events-cut [] c pos ok h = refl
  write_events-cut (e ∷ es) c pos ok h = ground (
    arith,
    write_events-cut es (write_event st (some e) c).0 pos ok.1,
    ok.0.1,
    laws.size-append c.cache ok.0.0,
    laws.cut-append c.cache ok.0.0 pos h,
  )

  -- The content of a cache: its bytes, the state that a savepoint keeps, and no pending event.
  abbrev pub Restored : CacheData S → CacheData S → Type 0
  Restored c d =
      (d.cache ≡ c.cache) × (current_state st d ≡ current_state st c) × (d.pending ≡ none)

  found-Restored :
      (c d : CacheData S) (pos : ℕ) (o : Option CacheState)
      → st.cut d.cache pos ≡ c.cache
      → o ≡ some (current_state st c)
      → Restored c (elim o [
        | none ↦ Data.truncate st pos d
        | some s ↦ Data.with_state st s (Data.truncate st pos d)
      ])
  unfolding Data.truncate remove_pending_event
  found-Restored c d pos none h₁ h₂ = cc
  found-Restored c d pos (some s) h₁ h₂ =
      (h₁, ap (λ (o : Option CacheState). elim o [ none ↦ s | some t ↦ t ]) h₂, refl)

  rolled_back :
      (c d : CacheData S) (pos : ℕ)
      → 0 < pos
      → st.cut d.cache pos ≡ c.cache
      → find pos d.cache_state_map ≡ some (current_state st c)
      → Restored c (cache_state_rollback st pos (Data.truncate st pos d))
  unfolding cache_state_rollback Data.truncate remove_pending_event
  rolled_back c d pos h₁ h₂ h₃ =
      if_cases (λ (x : CacheData S). Restored c x) (not (pos == 0))
        (λ h. found-Restored c d pos (find pos d.cache_state_map) h₂ h₃)
        (λ h. absurd (ground (arith, ==_iff pos 0)))

  -- The state that a checkpoint at the end of a cache with data records, after more events.
  checkpoint_found :
      (c : CacheData S) (es : List CachedEvent) (pos : ℕ)
      → Serializable es
      → 0 < pos
      → find pos (write_events st es (cache_state_checkpoint st pos c)).cache_state_map
        ≡ some (current_state st c)
  unfolding cache_state_checkpoint
  checkpoint_found c es pos ok h = ground (
    arith,
    write_events-map es (cache_state_checkpoint st pos c) ok,
    find-insert pos pos (current_state st c) c.cache_state_map,
  )

  checkpoint-cache : (c : CacheData S) (pos : ℕ) → (cache_state_checkpoint st pos c).cache ≡ c.cache
  unfolding cache_state_checkpoint
  checkpoint-cache c pos = ground arith

  -- What is written after a checkpoint at the end of a cache with data is dropped by a rollback to it.
  checkpoint-Restored :
      (c : CacheData S) (es : List CachedEvent)
      → Serializable es
      → 0 < st.size c.cache
      → let pos = st.size c.cache in
        Restored c (
          cache_state_rollback st pos
            (Data.truncate st pos (write_events st es (cache_state_checkpoint st pos c))))
  checkpoint-Restored c es ok h =
      let pos = st.size c.cache in
      let c₁ = cache_state_checkpoint st pos c in
      rolled_back c (write_events st es c₁) pos h
        (ground
          (arith, write_events-cut es c₁ pos ok, checkpoint-cache c pos, laws.cut_all c.cache))
        (checkpoint_found c es pos ok h)

  -- A transaction cache to which events are written.
  abbrev pub log_events : List CachedEvent → TrxCache S → TrxCache S
  log_events es c = record c { cache_data = write_events st es c.cache_data }

  abbrev pub savepoint : TrxCache S → TrxCache S
  savepoint c = record c {
    cache_data = cache_state_checkpoint st (st.size c.cache_data.cache) c.cache_data;
  }

  -- When a savepoint is set in a transaction cache that holds bytes and serializable events are
  -- written after it, then a rollback to the savepoint brings back the bytes, the flags that describe the
  -- events and their count as they were at the savepoint, and leaves no pending event.
  pub savepoint-Restored :
      (c : TrxCache S) (es : List CachedEvent)
      → Serializable es
      → 0 < st.size c.cache_data.cache
      → Restored c.cache_data
          (restore_savepoint st
            (st.size c.cache_data.cache)
            (log_events es (savepoint c))).cache_data
  unfolding restore_savepoint
  savepoint-Restored c es ok h = checkpoint-Restored c.cache_data es ok h

  -- When a statement begins in a transaction cache that holds bytes and writes serializable events,
  -- then its rollback brings back the bytes, the flags that describe the events and their count, leaves no
  -- pending event and no statement position, and the cache is then taken to hold no XID event.
  pub statement-Restored :
      (c : TrxCache S) (es : List CachedEvent)
      → Serializable es
      → 0 < st.size c.cache_data.cache
      → let d =
          restore_prev_position st
            (log_events es (set_prev_position st (st.size c.cache_data.cache) c)) in
        Restored c.cache_data d.cache_data
        × (d.before_stmt_pos ≡ my_off_t_undef)
        × (d.cache_data.flags.with_xid ≡ false)
  unfolding restore_prev_position set_prev_position
  statement-Restored c es ok h = (checkpoint-Restored c.cache_data es ok h, refl, refl)
