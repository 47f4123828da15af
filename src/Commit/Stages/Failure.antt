-- ===== src/Commit/Stages/Failure.antt =====
-- What is left of a queue none of whose sessions could be flushed.
use knowledge_base.Base.{
  ℕ, ◌+◌, Bool, true, false, not, ◌&&◌, ◌||◌, [], ◌∷◌, All, ltb, leb, if◌then◌else◌, ◌≡◌, refl, ◌∙◌,
  inl, inr, arith, if_cases,
}
use knowledge_base.Cache.Storage.{Storage}
use knowledge_base.Cache.Data.{CacheData}
use knowledge_base.Cache.Flush.{
  is_flush_error, Flusher, Io, Log, Flushed, flush, flush_trx, CacheMngr, mngr_flush,
}
use knowledge_base.Cache.Flush.Groups.{flush-Ended}
use knowledge_base.Commit.Group.{Session, Binlog, inc_prep_xids, flush_thread_caches}
use knowledge_base.Commit.Stages.{
  Queue, assign_automatic_gtids_to_flush_group, flush_engine_logs, flush_queue,
  process_flush_stage_queue,
}

module _ {S : Type 0} (st : Storage S) (extraction server_version unknown : ℕ) where
  abbrev Result : Type 0
  Result = Flushed st extraction server_version unknown

  abbrev IsMarked : Flusher → Type 0
  IsMarked f = is_flush_error f.commit_error ≡ true

  differ : {P : Type 0} {x : Bool} → x ≡ true → x ≡ false → P
  differ h k = cc

  flush-failed :
      (io : Io) (bytes : ℕ) (c : CacheData S) (log : Log S) (f : Flusher) (wrote_xid : Bool)
      → let r = (flush st extraction server_version unknown io bytes c log f wrote_xid).1 in
        r.error ≡ true → IsMarked r.flusher
  flush-failed io bytes c log f wrote_xid h =
      elim (flush-Ended st extraction server_version unknown io bytes c log f wrote_xid) [
        | inl x ↦ differ h x.4
        | inr x ↦ elim x.3 [ inl y ↦ y.2 | inr y ↦ differ h y.0 ]
      ]

  mngr_flush-failed :
      (io io' : Io) (bytes : ℕ) (m : CacheMngr st extraction server_version unknown) (log : Log S)
      (f : Flusher) (wrote_xid : Bool)
      → let r =
          (mngr_flush st extraction server_version unknown io io' bytes m log f wrote_xid).1 in
        r.error ≡ true → IsMarked r.flusher × (r.bytes_written ≡ bytes)
  unfolding mngr_flush flush_trx
  mngr_flush-failed io io' bytes m log f wrote_xid =
      let r = (flush st extraction server_version unknown io 0 m.stmt_cache log f wrote_xid).1 in
      let r' =
        (flush st extraction server_version unknown io' 0 m.trx_cache.cache_data r.log r.flusher
          r.wrote_xid).1 in
      if_cases
        (λ (x : CacheMngr st extraction server_version unknown × Result).
          x.1.error ≡ true → IsMarked x.1.flusher × (x.1.bytes_written ≡ bytes))
        r.error (λ e h. (flush-failed io 0 m.stmt_cache log f wrote_xid e, refl))
        (λ _ h. (
          flush-failed io' 0 m.trx_cache.cache_data r.log r.flusher r.wrote_xid h,
          kept r'.error _ h,
        ))
    where
      kept : (x : Bool) (n : ℕ) → x ≡ true → (if x then bytes else n) ≡ bytes
      kept x n h = rw h refl

  abbrev Srv : Type 0
  Srv = Binlog st extraction server_version unknown

  abbrev Thd : Type 0
  Thd = Session st extraction server_version unknown

  abbrev HasFlushError : Thd → Type 0
  HasFlushError s = is_flush_error s.flusher.commit_error ≡ true

  -- A failed flush of one session.
  abbrev Failed : Srv → Srv × Thd × Bool × ℕ → Type 0
  Failed b x = HasFlushError x.1 × (x.3 ≡ 0) × (x.0.prep_xids ≡ b.prep_xids)

  not-true : {P : Type 0} (x y : Bool) → (not x && y) ≡ true → x ≡ true → P
  not-true x y h k = absurd (ground (arith, h, k))

  flush_thread_caches-Failed :
      (b : Srv) (s : Thd)
      → let x = flush_thread_caches st extraction server_version unknown b s in
        x.2 ≡ true → Failed b x
  unfolding flush_thread_caches inc_prep_xids
  flush_thread_caches-Failed b s =
      let (m, r) =
        mngr_flush st extraction server_version unknown s.service.stmt_io s.service.trx_io 0
          s.cache_mngr b.log s.flusher false in
      let failed : r.error ≡ true → IsMarked r.flusher × (r.bytes_written ≡ 0) =
        mngr_flush-failed s.service.stmt_io s.service.trx_io 0 s.cache_mngr b.log s.flusher false in
      if_cases (λ (x : Srv × Thd × Bool × ℕ). x.2 ≡ true → Failed b x)
        (not r.error && ltb 0 r.bytes_written)
        (λ t.
          if_cases (λ (x : Srv × Thd × Bool × ℕ). x.2 ≡ true → Failed b x) r.wrote_xid
            (λ _ h. not-true r.error _ t h) (λ _ h. not-true r.error _ t h))
        (λ _ h. ((failed h).0, (failed h).1, refl))

  both_true : (x y : Bool) → (if x then y else x) ≡ true → (x ≡ true) × (y ≡ true)
  both_true true y h = (refl, h)
  both_true false y h = cc

  flush_queue-Failed :
      (b : Srv) (q : Queue st extraction server_version unknown) (error : Bool) (bytes : ℕ)
      → let r = flush_queue st extraction server_version unknown b q error bytes in
        r.flush_error ≡ true
        → (error ≡ true)
          × All HasFlushError r.queue
          × (r.total_bytes ≡ bytes)
          × (r.binlog.prep_xids ≡ b.prep_xids)
  unfolding flush_queue
  flush_queue-Failed b [] error bytes h = (h, tt, refl, refl)
  flush_queue-Failed b (s ∷ q) error bytes h =
      let (b', s', failed, n) = flush_thread_caches st extraction server_version unknown b s in
      let (both, all, total, kept) =
        flush_queue-Failed b' q (if error then failed else error) (bytes + n) h in
      let (before, now) = both_true error failed both in
      let (marked, none_written, same) = flush_thread_caches-Failed b s now in
      (before, (marked, all), omega (arith, total, none_written), kept ∙ same)

  flush_engine_logs-prep_xids :
      (check thd : Bool) (b : Srv)
      → (flush_engine_logs st extraction server_version unknown check thd b).prep_xids ≡ b.prep_xids
  unfolding flush_engine_logs
  flush_engine_logs-prep_xids check thd b =
      if_cases (λ (x : Srv). x.prep_xids ≡ b.prep_xids) (not check || (check && thd)) (λ _. refl)
        (λ _. refl)

  nothing : (n : ℕ) (x : Bool) → n ≡ 0 → (ltb 0 n && x) ≡ false
  nothing n x h = ground (arith, h)

  -- If the stage FLUSH reports an error for its queue, then every session of the queue is marked with a
  -- flush error, no bytes count as written, no rotation is asked for, and no prepared XID is counted.
  pub process_flush_stage_queue-failed :
      (commit_order_thd : Bool) (real_file_size max_size : ℕ)
      (b : Binlog st extraction server_version unknown)
      (q : Queue st extraction server_version unknown)
      → let (r, do_rotate) =
          process_flush_stage_queue st extraction server_version unknown commit_order_thd
            real_file_size max_size b q in
        r.flush_error ≡ true
        → All
            (λ (s : Session st extraction server_version unknown).
              is_flush_error s.flusher.commit_error ≡ true)
            r.queue
          × (r.total_bytes ≡ 0)
          × (do_rotate ≡ false)
          × (r.binlog.prep_xids ≡ b.prep_xids)
  unfolding process_flush_stage_queue
  process_flush_stage_queue-failed commit_order_thd real_file_size max_size b q h =
      let (_, all, none_written, kept) =
        flush_queue-Failed
          (flush_engine_logs st extraction server_version unknown false commit_order_thd b)
          (assign_automatic_gtids_to_flush_group st extraction server_version unknown q).0 true 0
          h in
      (
        all,
        none_written,
        nothing _ (leb max_size real_file_size) none_written,
        kept ∙ flush_engine_logs-prep_xids false commit_order_thd b,
      )
