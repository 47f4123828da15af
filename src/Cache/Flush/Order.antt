-- ===== src/Cache/Flush/Order.antt =====
-- binlog_cache_mngr::flush: the timestamps of the groups of the two caches.
use knowledge_base.Base.{
  ℕ, ℤ, pos, ◌+ℤ◌, ◌-ℤ◌, ◌≤ℤ◌, ◌<ℤ◌, eqb_ℤ, +ℤ_parts, -ℤ_parts, max_ℤ, Bool, true, false, List, [],
  ◌∷◌, ◌++◌, if◌then◌else◌, ◌≡◌, refl, ap, ◌∙◌, ◌⊎◌, inl, inr, arith, if_cases,
}
use knowledge_base.Tracking.Thd.{Thd}
use knowledge_base.Tracking.Clock
use knowledge_base.Tracking.Clock.{LogicalClock, seq_uninit}
use knowledge_base.Tracking.CommitOrder
use knowledge_base.Tracking.CommitOrder.{CommitOrder, Dependency}
use knowledge_base.Tracking.CommitOrder.Bounds.{IsValid}
use knowledge_base.Tracking.Session
use knowledge_base.Tracking.Tracker
use knowledge_base.Tracking.Tracker.{
  Tracker, TrackingMode, commit_order, writeset, writeset_session, unknown,
}
use knowledge_base.Cache.Storage.{Storage}
use knowledge_base.Cache.Data.{CacheData}
use knowledge_base.Cache.Flush.{
  is_flush_error, Flusher, GtidEvent, Io, Log, write_cache, write_transaction, numbered, Flushed,
  conclude, flush_finalized, flush, flush_trx, CacheMngr, mngr_flush,
}

-- What the tracker answers in the mode COMMIT_ORDER.
abbrev Answered : Tracker → Thd → Tracker × Thd × Dependency → Type 0
Answered t thd x =
    (x.0.opt_tracking_mode ≡ commit_order)
    × (x.0.m_commit_order.max_committed_transaction ≡ t.m_commit_order.max_committed_transaction)
    × (x.0.m_commit_order.transaction_counter ≡ t.m_commit_order.transaction_counter)
    × (x.2.sequence_number
        ≡ thd.sequence_number -ℤ t.m_commit_order.max_committed_transaction.offset)
    × ((thd.last_committed ≤ℤ t.m_commit_order.max_committed_transaction.offset)
        ⊎ (thd.last_committed -ℤ t.m_commit_order.max_committed_transaction.offset
            ≤ℤ x.2.commit_parent))

by_order :
    (t : Tracker) (thd : Thd)
    → t.opt_tracking_mode ≡ commit_order
    → Answered t thd ((Tracker.by_commit_order t thd).0, thd, (Tracker.by_commit_order t thd).1)
unfolding Tracker.by_commit_order CommitOrder.get_dependency max_ℤ
by_order t thd m = ground (
  arith,
  m,
  -ℤ_parts thd.last_committed t.m_commit_order.max_committed_transaction.offset,
  -ℤ_parts t.m_commit_order.last_blocking_transaction
      t.m_commit_order.max_committed_transaction.offset,
)

get_dependency-Answered :
    (extraction : ℕ) (t : Tracker) (thd : Thd)
    → t.opt_tracking_mode ≡ commit_order
    → Answered t thd (Tracker.get_dependency extraction t thd)
unfolding Tracker.get_dependency
get_dependency-Answered extraction t thd m = go t.opt_tracking_mode m
  where
    go :
        (mode : TrackingMode)
        → mode ≡ commit_order
        → Answered t thd (elim mode [
          | commit_order ↦
              ((Tracker.by_commit_order t thd).0, thd, (Tracker.by_commit_order t thd).1)
          | writeset ↦ (
            (Tracker.by_writeset extraction t thd).0,
            thd,
            (Tracker.by_writeset extraction t thd).1,
          )
          | writeset_session ↦
              let (u, d) = Tracker.by_writeset extraction t thd in
              let (thd', d') = Session.get_dependency thd d in (u, thd', d')
          | unknown n ↦ ((Tracker.by_commit_order t thd).0, thd, (Tracker.by_commit_order t thd).1)
        ])
    go commit_order e = by_order t thd m
    go writeset e = cc
    go writeset_session e = cc
    go (unknown n) e = cc

-- What one group records, and what it leaves for the next.
abbrev Grouped : {S : Type 0} → CacheData S → Log S → Thd → Log S → GtidEvent → Type 0
Grouped c log thd after e =
    (after.groups ≡ log.groups ++ ((e, c.cache) ∷ []))
    × (after.tracker.opt_tracking_mode ≡ commit_order)
    × (after.tracker.m_commit_order.max_committed_transaction
        ≡ log.tracker.m_commit_order.max_committed_transaction)
    × (after.tracker.m_commit_order.transaction_counter
        ≡ log.tracker.m_commit_order.transaction_counter)
    × (e.sequence_number
        ≡ thd.sequence_number -ℤ log.tracker.m_commit_order.max_committed_transaction.offset)
    × ((thd.last_committed ≤ℤ log.tracker.m_commit_order.max_committed_transaction.offset)
        ⊎ (thd.last_committed -ℤ log.tracker.m_commit_order.max_committed_transaction.offset
            ≤ℤ e.last_committed))

module _ {S : Type 0} (st : Storage S) (extraction server_version unknown_version : ℕ) where
  write_transaction-Grouped :
      (io : Io) (c : CacheData S) (log : Log S) (f : Flusher)
      → log.tracker.opt_tracking_mode ≡ commit_order
      → let x = write_transaction st extraction server_version unknown_version io c log f in
        (x.2 ≡ true)
        ⊎ ((x.1.thd.last_committed ≡ seq_uninit) × ((e : GtidEvent) × Grouped c log f.thd x.0 e))
  unfolding write_transaction
  write_transaction-Grouped io c log f m =
      let (a, b, k, n, p) = get_dependency-Answered extraction log.tracker f.thd m in
      if_cases
        (λ (x : Log S × Flusher × Bool).
          (x.2 ≡ true)
          ⊎ ((x.1.thd.last_committed ≡ seq_uninit) × ((e : GtidEvent) × Grouped c log f.thd x.0 e)))
        io.gtid_fails (λ _. inl refl)
        λ _.
          if_cases
            (λ (x : Log S × Flusher × Bool).
              (x.2 ≡ true)
              ⊎ ((x.1.thd.last_committed ≡ seq_uninit)
                  × ((e : GtidEvent) × Grouped c log f.thd x.0 e)))
            (write_cache st extraction server_version unknown_version io c) (λ _. inl refl)
            λ _. inr (refl, (_, (refl, a, b, k, n, p)))

  -- After a flush without an error, the session's parent is free again.
  abbrev Stepped : Tracker → Tracker
  Stepped t = (Tracker.step t).0

  abbrev Chained :
      CacheData S → Log S → Thd → Flushed st extraction server_version unknown_version → Type 0
  Chained c log thd r =
      (r.flusher.thd.last_committed ≡ seq_uninit) × ((e : GtidEvent) × Grouped c log thd r.log e)

  conclude-Chained :
      (c : CacheData S) (log : Log S) (thd : Thd) (wrote_xid : Bool) (x : Log S × Flusher × Bool)
      → (x.2 ≡ true)
        ⊎ ((x.1.thd.last_committed ≡ seq_uninit) × ((e : GtidEvent) × Grouped c log thd x.0 e))
      → (conclude st extraction server_version unknown_version c wrote_xid x).error ≡ false
      → Chained c log thd (conclude st extraction server_version unknown_version c wrote_xid x)
  conclude-Chained c log thd wrote_xid (l, f, true) g h = cc
  conclude-Chained c log thd wrote_xid (l, f, false) (inl e) h = cc
  conclude-Chained c log thd wrote_xid (l, f, false) (inr g) h = g

  abbrev stepped : Log S → Log S
  stepped log = record log { tracker = (Tracker.step log.tracker).0 }

  abbrev next_thd : Log S → Flusher → Thd
  next_thd log f =
      (numbered st extraction server_version unknown_version (Tracker.step log.tracker).1 f).thd

  flush_finalized-Chained :
      (io : Io) (c : CacheData S) (log : Log S) (f : Flusher) (wrote_xid : Bool)
      → log.tracker.opt_tracking_mode ≡ commit_order
      → (flush_finalized st extraction server_version unknown_version io c log f wrote_xid).error
        ≡ false
      → Chained c
          (stepped log)
          (next_thd log f)
          (flush_finalized st extraction server_version unknown_version io c log f wrote_xid)
  unfolding flush_finalized Tracker.step
  flush_finalized-Chained io c log f wrote_xid m =
      let f' =
        numbered st extraction server_version unknown_version (Tracker.step log.tracker).1 f in
      if_cases
        (λ (r : Flushed st extraction server_version unknown_version).
          r.error ≡ false → Chained c (stepped log) (next_thd log f) r)
        (is_flush_error f.commit_error) (λ _ h. cc)
        (λ _.
          conclude-Chained c (stepped log) f'.thd wrote_xid
            (write_transaction st extraction server_version unknown_version io c (stepped log) f')
            (write_transaction-Grouped io c (stepped log) f' m))

  flush-Chained :
      (io : Io) (bytes : ℕ) (c : CacheData S) (log : Log S) (f : Flusher) (wrote_xid : Bool)
      → c.flags.finalized ≡ true
      → log.tracker.opt_tracking_mode ≡ commit_order
      → let r = (flush st extraction server_version unknown_version io bytes c log f wrote_xid).1 in
        r.error ≡ false → Chained c (stepped log) (next_thd log f) r
  unfolding flush
  flush-Chained io bytes c log f wrote_xid done m =
      if_cases
        (λ (x : CacheData S × Flushed st extraction server_version unknown_version).
          x.1.error ≡ false → Chained c (stepped log) (next_thd log f) x.1)
        c.flags.finalized (λ _. flush_finalized-Chained io c log f wrote_xid m)
        λ n. absurd (ground (arith, done, n))

  -- The parent that a session gets whose parent is free.
  free-parent :
      (n l : ℤ) → l ≡ seq_uninit → (if eqb_ℤ l seq_uninit then n -ℤ pos 1 else l) ≡ n -ℤ pos 1
  free-parent n l h = rw h refl

  in_order :
      (s off number number' parent' : ℤ)
      → off ≤ℤ s
      → number ≡ s +ℤ pos 1 -ℤ off
      → number' ≡ s +ℤ pos 1 +ℤ pos 1 -ℤ off
      → ((s +ℤ pos 1 +ℤ pos 1 -ℤ pos 1 ≤ℤ off) ⊎ (s +ℤ pos 1 +ℤ pos 1 -ℤ pos 1 -ℤ off ≤ℤ parent'))
      → (number <ℤ number') × (number ≤ℤ parent')
  in_order s off number number' parent' h n n' p = ground (
    arith,
    +ℤ_parts s (pos 1),
    +ℤ_parts (s +ℤ pos 1) (pos 1),
    -ℤ_parts (s +ℤ pos 1) off,
    -ℤ_parts (s +ℤ pos 1 +ℤ pos 1) off,
    -ℤ_parts (s +ℤ pos 1 +ℤ pos 1) (pos 1),
    -ℤ_parts (s +ℤ pos 1 +ℤ pos 1 -ℤ pos 1) off,
  )

  -- Two groups, the second of which finds the parent of the session free.
  abbrev pub Successive : CacheData S → CacheData S → Log S → Log S → Type 0
  Successive c c' log last =
      (e : GtidEvent) × (e' : GtidEvent) × (last.groups
        ≡ log.groups ++ ((e, c.cache) ∷ []) ++ ((e', c'.cache) ∷ []))
      × (e.sequence_number <ℤ e'.sequence_number)
      × (e.sequence_number ≤ℤ e'.last_committed)

  chained-Successive :
      (c c' : CacheData S) (log after last : Log S) (f f' : Flusher) (e e' : GtidEvent)
      → IsValid log.tracker.m_commit_order
      → f'.thd.last_committed ≡ seq_uninit
      → Grouped c (stepped log) (next_thd log f) after e
      → Grouped c' (stepped after) (next_thd after f') last e'
      → Successive c c' log last
  unfolding Tracker.step CommitOrder.step Clock.step numbered
  chained-Successive c c' log after last f f' e e' v free (g, _, x, k, n, _) (g', _, _, _, n', p') =
      let t = log.tracker.m_commit_order in
      let same : after.tracker.m_commit_order.max_committed_transaction.offset
          ≡ t.max_committed_transaction.offset =
        ap (λ (l : LogicalClock). l.offset) x in
      let moved : after.tracker.m_commit_order.transaction_counter.state
          ≡ t.transaction_counter.state +ℤ pos 1 =
        ap (λ (l : LogicalClock). l.state) k in
      let (less, below) =
        in_order t.transaction_counter.state t.max_committed_transaction.offset e.sequence_number
          e'.sequence_number e'.last_committed (ground (arith, v.offsets, v.offset_behind)) n
          (rw (← same, ← moved) n')
          (rw
            (
              ← same,
              ← moved,
              ← free-parent (after.tracker.m_commit_order.transaction_counter.state +ℤ pos 1)
                  f'.thd.last_committed free,
            )
            p') in
      (e, e', g' ∙ ap (λ (l : List (GtidEvent × S)). l ++ ((e', c'.cache) ∷ [])) g, less, below)

  mngr_flush-both :
      (io io' : Io) (bytes : ℕ) (m : CacheMngr st extraction server_version unknown_version)
      (log : Log S) (f : Flusher) (wrote_xid : Bool)
      → let r =
          (flush st extraction server_version unknown_version io 0 m.stmt_cache log f
            wrote_xid).1 in
        let r' =
          (flush st extraction server_version unknown_version io' 0 m.trx_cache.cache_data r.log
            r.flusher r.wrote_xid).1 in
        let all =
          (mngr_flush st extraction server_version unknown_version io io' bytes m log f
            wrote_xid).1 in
        all.error ≡ false → (r.error ≡ false) × (r'.error ≡ false) × (all.log ≡ r'.log)
  unfolding mngr_flush flush_trx
  mngr_flush-both io io' bytes m log f wrote_xid =
      let r =
        (flush st extraction server_version unknown_version io 0 m.stmt_cache log f wrote_xid).1 in
      let r' =
        (flush st extraction server_version unknown_version io' 0 m.trx_cache.cache_data r.log
          r.flusher r.wrote_xid).1 in
      if_cases
        (λ (x : CacheMngr st extraction server_version unknown_version
            × Flushed st extraction server_version unknown_version).
          x.1.error ≡ false → (r.error ≡ false) × (r'.error ≡ false) × (x.1.log ≡ r'.log))
        r.error (λ e h. cc) λ e h. (e, h, refl)

  -- In the mode COMMIT_ORDER, in a state that keeps the invariant of the tracker: when both caches of a
  -- session are finalized and are flushed without an error, the log gets two more groups, that of the
  -- statement cache and then that of the transaction cache; the second has the higher number and its
  -- parent is not before the first.
  pub mngr_flush-Successive :
      (io io' : Io) (bytes : ℕ) (m : CacheMngr st extraction server_version unknown_version)
      (log : Log S) (f : Flusher) (wrote_xid : Bool)
      → m.stmt_cache.flags.finalized ≡ true
      → m.trx_cache.cache_data.flags.finalized ≡ true
      → log.tracker.opt_tracking_mode ≡ commit_order
      → IsValid log.tracker.m_commit_order
      → (mngr_flush st extraction server_version unknown_version io io' bytes m log f
          wrote_xid).1.error
        ≡ false
      → Successive m.stmt_cache m.trx_cache.cache_data log
          (mngr_flush st extraction server_version unknown_version io io' bytes m log f
            wrote_xid).1.log
  mngr_flush-Successive io io' bytes m log f wrote_xid done done' mode v quiet =
      let (h, h', same) = mngr_flush-both io io' bytes m log f wrote_xid quiet in
      let r =
        (flush st extraction server_version unknown_version io 0 m.stmt_cache log f wrote_xid).1 in
      let r' =
        (flush st extraction server_version unknown_version io' 0 m.trx_cache.cache_data r.log
          r.flusher r.wrote_xid).1 in
      let (free, (e, group)) = flush-Chained io 0 m.stmt_cache log f wrote_xid done mode h in
      let (_, (e', group')) =
        flush-Chained io' 0 m.trx_cache.cache_data r.log r.flusher r.wrote_xid done' group.1 h' in
      rw same (
        chained-Successive m.stmt_cache m.trx_cache.cache_data log r.log r'.log f r.flusher e e' v
          free group group')
