-- ===== src/Cache/Flush/Groups.antt =====
-- The groups that a flush adds to the log.
use knowledge_base.Base.{ℕ, Bool, true, false, [], ◌∷◌, ◌++◌, ◌≡◌, refl, ◌⊎◌, inl, inr, if_cases}
use knowledge_base.Tracking.Clock.{seq_uninit}
use knowledge_base.Tracking.Tracker
use knowledge_base.Tracking.Tracker.{Tracker}
use knowledge_base.Cache.Storage.{Storage}
use knowledge_base.Cache.Data
use knowledge_base.Cache.Data.{CacheData}
use knowledge_base.Cache.Flush.{
  is_flush_error, Flusher, GtidEvent, Io, Log, write_cache, write_transaction, numbered, Flushed,
  conclude, flush_finalized, flush,
}

module _ {S : Type 0} (st : Storage S) (extraction server_version unknown : ℕ) where
  -- A group was added: the bytes of the cache, and an event that counts them and its events.
  abbrev pub Added : CacheData S → Log S → Log S → GtidEvent → Type 0
  Added c log after e =
      (after.groups ≡ log.groups ++ ((e, c.cache) ∷ []))
      × (e.is_trx_cache ≡ c.flags.transactional)
      × (e.byte_position ≡ st.size c.cache)
      × (e.event_counter ≡ c.event_counter)

  -- What a flush of a finalized cache has done.
  abbrev pub Ended : CacheData S → Log S → Flushed st extraction server_version unknown → Type 0
  Ended c log r =
      ((r.error ≡ true)
        × (r.log.groups ≡ log.groups)
        × (is_flush_error r.flusher.commit_error ≡ true))
      ⊎ ((r.error ≡ false)
          × ((e : GtidEvent) × Added c log r.log e)
          × (r.flusher.thd.last_committed ≡ seq_uninit))

  abbrev Wrote : CacheData S → Log S → Log S × Flusher × Bool → Type 0
  Wrote c log x =
      ((x.2 ≡ true) × (x.0.groups ≡ log.groups))
      ⊎ ((x.2 ≡ false)
          × ((e : GtidEvent) × Added c log x.0 e)
          × (x.1.thd.last_committed ≡ seq_uninit))

  write_transaction-Wrote :
      (io : Io) (c : CacheData S) (log : Log S) (f : Flusher)
      → Wrote c log (write_transaction st extraction server_version unknown io c log f)
  unfolding write_transaction
  write_transaction-Wrote io c log f =
      if_cases (λ (x : Log S × Flusher × Bool). Wrote c log x) io.gtid_fails (λ _. inl (refl, refl))
        λ _.
          if_cases (λ (x : Log S × Flusher × Bool). Wrote c log x)
            (write_cache st extraction server_version unknown io c) (λ _. inl (refl, refl))
            λ _. inr (refl, (_, (refl, refl, refl, refl)), refl)

  conclude-Ended :
      (c : CacheData S) (log : Log S) (wrote_xid : Bool) (x : Log S × Flusher × Bool)
      → Wrote c log x
      → Ended c log (conclude st extraction server_version unknown c wrote_xid x)
  unfolding is_flush_error
  conclude-Ended c log wrote_xid (l, f, true) (inl (_, same)) = inl (refl, same, refl)
  conclude-Ended c log wrote_xid (l, f, true) (inr (e, _, _)) = cc
  conclude-Ended c log wrote_xid (l, f, false) (inl (e, _)) = cc
  conclude-Ended c log wrote_xid (l, f, false) (inr (_, added, free)) = inr (refl, added, free)

  flush_finalized-Ended :
      (io : Io) (c : CacheData S) (log : Log S) (f : Flusher) (wrote_xid : Bool)
      → Ended c log (flush_finalized st extraction server_version unknown io c log f wrote_xid)
  unfolding flush_finalized numbered
  flush_finalized-Ended io c log f wrote_xid =
      let stepped : Log S = record log { tracker = (Tracker.step log.tracker).0 } in
      let f' = numbered st extraction server_version unknown (Tracker.step log.tracker).1 f in
      if_cases (λ (r : Flushed st extraction server_version unknown). Ended c log r)
        (is_flush_error f.commit_error) (λ h. inl (refl, refl, h))
        (λ _.
          conclude-Ended c stepped wrote_xid
            (write_transaction st extraction server_version unknown io c stepped f')
            (write_transaction-Wrote io c stepped f'))

  held :
      (io : Io) (c : CacheData S) (log : Log S) (f : Flusher) (wrote_xid : Bool)
      → (flush_finalized st extraction server_version unknown io c log f wrote_xid).bytes_written
        ≡ st.size c.cache
  unfolding flush_finalized
  held io c log f wrote_xid =
      if_cases
        (λ (r : Flushed st extraction server_version unknown). r.bytes_written ≡ st.size c.cache)
        (is_flush_error f.commit_error) (λ _. refl) λ _. refl

  -- A flush of a cache that is not finalized does nothing and reports no error. A flush of one that is
  -- resets it, whatever happens, and tells how many bytes it held; then either it reports an error, the
  -- log has no new group and the session is marked with a flush error, or the log has exactly one new
  -- group, with the bytes of the cache and a GTID event that counts its bytes and events, and the session's
  -- parent is free for the group of a second cache.
  pub flush-Ended :
      (io : Io) (bytes : ℕ) (c : CacheData S) (log : Log S) (f : Flusher) (wrote_xid : Bool)
      → let (d, r) = flush st extraction server_version unknown io bytes c log f wrote_xid in
        ((c.flags.finalized ≡ false)
          × (d ≡ c)
          × (r.log ≡ log)
          × (r.flusher ≡ f)
          × (r.error ≡ false)
          × (r.bytes_written ≡ bytes))
        ⊎ ((c.flags.finalized ≡ true)
            × (d ≡ Data.reset st c)
            × (r.bytes_written ≡ st.size c.cache)
            × Ended c log r)
  unfolding flush
  flush-Ended io bytes c log f wrote_xid =
      if_cases
        (λ (x : CacheData S × Flushed st extraction server_version unknown).
          ((c.flags.finalized ≡ false)
            × (x.0 ≡ c)
            × (x.1.log ≡ log)
            × (x.1.flusher ≡ f)
            × (x.1.error ≡ false)
            × (x.1.bytes_written ≡ bytes))
          ⊎ ((c.flags.finalized ≡ true)
              × (x.0 ≡ Data.reset st c)
              × (x.1.bytes_written ≡ st.size c.cache)
              × Ended c log x.1))
        c.flags.finalized
        (λ h. inr (h, refl, held io c log f wrote_xid, flush_finalized-Ended io c log f wrote_xid))
        λ h. inl (h, refl, refl, refl, refl, refl)
