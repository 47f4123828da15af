-- ===== src/Cache/Trx/Logging/Flushed.antt =====
-- No rows event is pending after an event was written.
use knowledge_base.Base.{
  Bool, true, false, not, ◌&&◌, Option, none, some, List, [], ◌∷◌, ◌++◌, if_cases, ◌≡◌, refl, ◌∙◌,
  arith,
}
use knowledge_base.Cache.Storage.{Storage}
use knowledge_base.Cache.Data
use knowledge_base.Cache.Data.{CacheData, CachedEvent, note_event}
use knowledge_base.Cache.Trx.{TrxCache, set_cannot_rollback}
use knowledge_base.Cache.Trx.Logging.{
  Thd, context_events, ends_stmt, note_write_error, write_pending, flush_pending,
  binlog_flush_pending_rows_event, binlog_start_trans_and_stmt, write_each, write_started,
  is_filtered, write_flushed, write_event,
}

module _ {S : Type 0} (st : Storage S) where
  write_event-pending :
      (ev : CachedEvent) (c : CacheData S) → (Data.write_event st (some ev) c).0.pending ≡ c.pending
  unfolding Data.write_event note_event
  write_event-pending ev c = ground arith

  write_each-pending :
      (evs : List CachedEvent) (c : CacheData S) → (write_each st evs c).0.pending ≡ c.pending
  unfolding write_each
  write_each-pending [] c = refl
  write_each-pending (ev ∷ evs) c =
      if_cases (λ (r : CacheData S × Bool). r.0.pending ≡ c.pending)
        (Data.write_event st (some ev) c).1 (λ _. write_event-pending ev c)
        (λ _. write_each-pending evs (Data.write_event st (some ev) c).0 ∙ write_event-pending ev c)

  note_write_error-pending :
      (thd : Thd) (c : CacheData S) → (note_write_error st thd c).pending ≡ c.pending
  unfolding note_write_error
  note_write_error-pending thd c =
      if_cases (λ (d : CacheData S). d.pending ≡ c.pending)
        (thd.write_error && thd.cannot_safely_rollback) (λ _. refl) (λ _. refl)

  write_pending-none :
      (thd : Thd) (pending : CachedEvent) (c : CacheData S)
      → (write_pending st thd pending c).0.pending ≡ none
  unfolding write_pending
  write_pending-none thd pending c =
      if_cases (λ (r : CacheData S × Bool). r.0.pending ≡ none)
        (Data.write_event st (some pending) c).1 (λ _. refl) (λ _. refl)

  flush_pending-none :
      (thd : Thd) (o : Option CachedEvent) (c : CacheData S)
      → c.pending ≡ o
      → (flush_pending st thd o c).1.pending ≡ none
  unfolding flush_pending
  flush_pending-none thd none c h = h
  flush_pending-none thd (some pending) c h =
      if_cases (λ (r : Thd × CacheData S × Bool). r.1.pending ≡ none) (ends_stmt thd)
        (λ _. write_pending-none thd pending c)
        (λ _. write_pending-none thd (thd.without_stmt_end pending) c)

  binlog_flush_pending_rows_event-none :
      (thd : Thd) (c : CacheData S)
      → thd.is_open_at_flush ≡ true
      → (binlog_flush_pending_rows_event st thd c).1.pending ≡ none
  unfolding binlog_flush_pending_rows_event
  binlog_flush_pending_rows_event-none thd c opened =
      if_cases (λ (r : Thd × CacheData S × Bool). r.1.pending ≡ none) thd.is_open_at_flush
        (λ _. flush_pending-none thd c.pending c refl)
        (λ shut. absurd (ground (arith, opened, shut)))

  start-pending :
      (thd : Thd) (ev : CachedEvent) (c : CacheData S)
      → (binlog_start_trans_and_stmt st thd ev c).0.pending ≡ c.pending
  unfolding binlog_start_trans_and_stmt
  start-pending thd ev c = ground (arith, write_event-pending thd.begin c)

  write_started-pending :
      (thd : Thd) (ev : CachedEvent) (c : TrxCache S)
      → (write_started st thd ev c).0.cache_data.pending ≡ c.cache_data.pending
  unfolding write_started set_cannot_rollback
  write_started-pending thd ev c =
      let evs = context_events thd ++ (ev ∷ []) in
      let d = (write_each st evs c.cache_data).0 in
      let here = write_each-pending evs c.cache_data in
      if_cases (λ (r : TrxCache S × Bool). r.0.cache_data.pending ≡ c.cache_data.pending)
        (write_each st evs c.cache_data).1 (λ _. note_write_error-pending thd d ∙ here)
        (λ _.
          if_cases (λ (t : TrxCache S). t.cache_data.pending ≡ c.cache_data.pending)
            thd.cannot_safely_rollback (λ _. here) (λ _. here))

  write_flushed-pending :
      (thd : Thd) (no_filter : Bool) (ev : CachedEvent) (c : TrxCache S)
      → (write_flushed st thd no_filter ev c).0.cache_data.pending ≡ c.cache_data.pending
  unfolding write_flushed
  write_flushed-pending thd no_filter ev c =
      let started = record c {
        cache_data = (binlog_start_trans_and_stmt st thd ev c.cache_data).0;
      } in
      let here = start-pending thd ev c.cache_data in
      if_cases (λ (r : TrxCache S × Bool). r.0.cache_data.pending ≡ c.cache_data.pending)
        (not thd.is_open) (λ _. refl)
        (λ _.
          if_cases (λ (r : TrxCache S × Bool). r.0.cache_data.pending ≡ c.cache_data.pending)
            (is_filtered st thd no_filter) (λ _. refl)
            (λ _.
              if_cases (λ (r : TrxCache S × Bool). r.0.cache_data.pending ≡ c.cache_data.pending)
                (binlog_start_trans_and_stmt st thd ev c.cache_data).1 (λ _. here)
                (λ _. write_started-pending thd ev started ∙ here)))

  pub write_event-none :
      (thd : Thd) (no_filter : Bool) (ev : CachedEvent) (c : TrxCache S)
      → thd.do_union ≡ false
      → thd.is_open_at_flush ≡ true
      → (write_event st thd no_filter ev c).1.cache_data.pending ≡ none
  unfolding write_event
  write_event-none thd no_filter ev c alone opened =
      let r = binlog_flush_pending_rows_event st thd c.cache_data in
      let flushed = record c { cache_data = r.1 } in
      let here = binlog_flush_pending_rows_event-none thd c.cache_data opened in
      if_cases (λ (r : Thd × TrxCache S × Bool). r.1.cache_data.pending ≡ none) thd.do_union
        (λ union. absurd (ground (arith, alone, union)))
        (λ _.
          if_cases (λ (r : Thd × TrxCache S × Bool). r.1.cache_data.pending ≡ none) r.2 (λ _. here)
            (λ _. write_flushed-pending r.0 no_filter ev flushed ∙ here))
