-- ===== src/Cache/Data/Finalize.antt =====
-- What binlog_cache_data::finalize adds to a cache.
use knowledge_base.Base.{
  ◌≡◌, refl, sym, ap, ◌∙◌, Bool, true, false, not, Option, none, some, List, [], ◌∷◌, ◌++◌,
  if_cases, arith,
}
use knowledge_base.Cache.Storage.{Storage}
use knowledge_base.Cache.Data.{
  CachedEvent, CacheData, Session, is_binlog_empty, write_event, flush_pending_event, can_compress,
  compress, then_do, finalize, no_compression,
}
use knowledge_base.Cache.Data.Content.{Serializable, write_events}

-- An event that may be there.
abbrev pub listed : Option CachedEvent → List CachedEvent
listed none = []
listed (some e) = e ∷ []

module _ {S : Type 0} (st : Storage S) where
  write_events-append :
      (xs ys : List CachedEvent) (c : CacheData S)
      → write_events st (xs ++ ys) c ≡ write_events st ys (write_events st xs c)
  unfolding write_events
  write_events-append [] ys c = refl
  write_events-append (x ∷ xs) ys c = write_events-append xs ys (write_event st (some x) c).0

  write_listed :
      (o : Option CachedEvent) (c : CacheData S)
      → Serializable (listed o)
      → write_event st o c ≡ (write_events st (listed o) c, false)
  unfolding write_events write_event
  write_listed none c ok = refl
  write_listed (some e) c ok = ground (arith, ok.0.1)

  -- A finalized cache, whose sizes are recorded without compression.
  abbrev pub sealed : CacheData S → CacheData S
  sealed c = record c {
    flags = record c.flags { finalized = true };
    compression_type = no_compression;
    compressed_size = st.size c.cache;
    decompressed_size = st.size c.cache;
  }

  abbrev seal : Session → CacheData S → CacheData S × Bool
  seal thd c =
      then_do st (compress st thd c)
        λ d. (record d { flags = record d.flags { finalized = true } }, false)

  seal_uncompressed :
      (thd : Session) (c : CacheData S)
      → thd.binlog_trx_compression ≡ false
      → seal thd c ≡ (sealed c, false)
  unfolding compress can_compress
  seal_uncompressed thd c off = ground (arith, off)

  -- With compression off: to finalize a cache that is not empty writes the pending event, if there is
  -- one, and then the event that ends the transaction, if there is one, and marks the cache, without
  -- an error if those can be serialized; its recorded sizes are its true one.
  finalize-sealed :
      (thd : Session) (end_event : Option CachedEvent) (c : CacheData S)
      → thd.binlog_trx_compression ≡ false
      → is_binlog_empty st c ≡ false
      → Serializable (listed c.pending)
      → Serializable (listed end_event)
      → finalize st thd end_event c
        ≡ (sealed (write_events st (listed c.pending ++ listed end_event) c), false)
  unfolding finalize flush_pending_event
  finalize-sealed thd end_event c off full ok ok' =
      let c₁ = write_events st (listed c.pending) c in
      let c₂ = write_events st (listed end_event) c₁ in
      if_cases
        (λ (r : CacheData S × Bool).
          r ≡ (sealed (write_events st (listed c.pending ++ listed end_event) c), false))
        (not (is_binlog_empty st c))
        (λ _.
          ap
            (λ (r : CacheData S × Bool).
              then_do st r (λ d. then_do st (write_event st end_event d) (seal thd)))
            (write_listed c.pending c ok)
          ∙ ap (λ (r : CacheData S × Bool). then_do st r (seal thd)) (write_listed end_event c₁ ok')
          ∙ seal_uncompressed thd c₂ off
          ∙ ap (λ (d : CacheData S). (sealed d, false))
              (sym (write_events-append (listed c.pending) (listed end_event) c)))
        (λ h. absurd (ground (arith, full, h)))
