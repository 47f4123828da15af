-- ===== src/Cache/Data/Content.antt =====
-- What the flags of a cache say of the events written to it.
use knowledge_base.Base.{
  ℕ, ◌+◌, ◌≡◌, refl, Bool, true, false, not, ◌&&◌, ◌||◌, Option, none, some, List, [], ◌∷◌, length,
  All, if◌then◌else◌, if_cases, inl, inr, arith, ◌⊎◌,
}
use knowledge_base.Cache.Storage.{Storage, Laws}
use knowledge_base.Cache.Data.{
  Flags, CachedEvent, CacheData, Session, Compressor, init, is_binlog_empty, may_have_sbr_stmts,
  has_empty_transaction, compute_statistics, reset, remove_pending_event, note_event, write_event,
  can_compress, compress_with, compress, no_compression, recorded,
}

abbrev pub any : (CachedEvent → Bool) → List CachedEvent → Bool
any p [] = false
any p (e ∷ es) = p e || any p es

-- An event that is neither the start nor the end of a transaction.
abbrev pub is_content : CachedEvent → Bool
is_content e = not e.starts_group && not e.ends_group

-- Every event can be serialized.
abbrev pub Serializable : List CachedEvent → Type 0
Serializable = All (λ (e : CachedEvent). (bytes : List ℕ) × (e.bytes ≡ some bytes))

module _ {S : Type 0} (st : Storage S) where
  unfoldable pub write_events : List CachedEvent → CacheData S → CacheData S
  write_events [] c = c
  write_events (e ∷ es) c = write_events es (write_event st (some e) c).0

  -- The flags and the count after one event that can be serialized.
  abbrev Described : (CachedEvent → Bool) → (Flags → Bool) → Type 0
  Described p flag =
      (e : CachedEvent) (c : CacheData S) (bytes : List ℕ)
      → e.bytes ≡ some bytes
      → flag (write_event st (some e) c).0.flags ≡ (flag c.flags || p e)

  start_flag : Described (λ e. e.starts_group) (λ f. f.with_start)
  unfolding write_event note_event
  start_flag e c bytes h = ground arith

  end_flag : Described (λ e. e.ends_group) (λ f. f.with_end)
  unfolding write_event note_event
  end_flag e c bytes h = ground arith

  content_flag : Described is_content (λ f. f.with_content)
  unfolding write_event note_event
  content_flag e c bytes h = ground arith

  sbr_flag : Described (λ e. e.is_sbr_logging_format) (λ f. f.with_sbr)
  unfolding write_event note_event
  sbr_flag e c bytes h = ground arith

  rbr_flag : Described (λ e. e.is_rbr_logging_format) (λ f. f.with_rbr)
  unfolding write_event note_event
  rbr_flag e c bytes h = ground arith

  write_event-counter :
      (e : CachedEvent) (c : CacheData S) (bytes : List ℕ)
      → e.bytes ≡ some bytes
      → (write_event st (some e) c).0.event_counter ≡ c.event_counter + 1
  unfolding write_event note_event
  write_event-counter e c bytes h = ground arith

  -- If one event sets a flag by the test `p`, then many do by their disjunction.
  write_events-flag :
      (p : CachedEvent → Bool) (flag : Flags → Bool)
      → Described p flag
      → (es : List CachedEvent) (c : CacheData S) → Serializable es
      → flag (write_events es c).flags ≡ (flag c.flags || any p es)
  unfolding write_events
  write_events-flag p flag one [] c ok = ground arith
  write_events-flag p flag one (e ∷ es) c ok = ground (
    arith,
    one e c ok.0.0 ok.0.1,
    write_events-flag p flag one es (write_event st (some e) c).0 ok.1,
  )

  write_events-counter :
      (es : List CachedEvent) (c : CacheData S)
      → Serializable es
      → (write_events es c).event_counter ≡ c.event_counter + length es
  unfolding write_events
  write_events-counter [] c ok = omega arith
  write_events-counter (e ∷ es) c ok = omega (
    arith,
    write_event-counter e c ok.0.0 ok.0.1,
    write_events-counter es (write_event st (some e) c).0 ok.1,
  )

  -- A fresh cache to which serializable events are written counts them, and holds an empty transaction,
  -- by its flags, exactly when some event starts a transaction, some event ends one, and no event is
  -- anything else; it may hold statements exactly when some event is a statement or none is a row change.
  pub write_events-described :
      (trx_cache : Bool) (empty : S) (es : List CachedEvent)
      → Serializable es
      → let c = write_events es (init st trx_cache empty) in
        (c.event_counter ≡ length es)
        × (has_empty_transaction st c ≡ (
            any (λ e. e.starts_group) es && any (λ e. e.ends_group) es && not (any is_content es)))
        × (may_have_sbr_stmts st c ≡ (
            any (λ e. e.is_sbr_logging_format) es || not (any (λ e. e.is_rbr_logging_format) es)))
  unfolding init has_empty_transaction may_have_sbr_stmts
  write_events-described trx_cache empty es ok = ground (
    arith,
    write_events-counter es (init st trx_cache empty) ok,
    write_events-flag (λ e. e.starts_group) (λ f. f.with_start) start_flag es
        (init st trx_cache empty) ok,
    write_events-flag (λ e. e.ends_group) (λ f. f.with_end) end_flag es (init st trx_cache empty)
        ok,
    write_events-flag is_content (λ f. f.with_content) content_flag es (init st trx_cache empty) ok,
    write_events-flag (λ e. e.is_sbr_logging_format) (λ f. f.with_sbr) sbr_flag es
        (init st trx_cache empty) ok,
    write_events-flag (λ e. e.is_rbr_logging_format) (λ f. f.with_rbr) rbr_flag es
        (init st trx_cache empty) ok,
  )

  -- A reset drops all data: whatever the cache held, it is then empty, no flag but the kind of the cache
  -- is set, nothing is counted, and the cache is counted as used exactly if it was not empty.
  pub reset-empty :
      (laws : Laws st) (c : CacheData S)
      → let d = reset st c in
        (is_binlog_empty st d ≡ true)
        × (d.flags ≡ (init st c.flags.transactional c.cache).flags)
        × (d.cache_state_map ≡ [])
        × (d.event_counter ≡ 0)
        × (d.binlog_cache_use
            ≡ (if is_binlog_empty st c then c.binlog_cache_use else c.binlog_cache_use + 1))
  unfolding reset is_binlog_empty compute_statistics remove_pending_event init
  reset-empty laws c = ground (arith, laws.size-clear c.cache)

  -- What a successful compression leaves.
  abbrev pub Compressed : Session → CacheData S → CacheData S → Type 0
  Compressed thd c d =
      (thd.binlog_trx_compression ≡ true)
      × (c.flags.incident ≡ false)
      × (thd.modified_non_trans_stmt ≡ false)
      × (thd.modified_non_trans_session ≡ false)
      × (c.flags.with_sbr ≡ false)
      × (c.flags.with_rbr ≡ true)
      × (d.event_counter ≡ 1)

  abbrev pub Kept : CacheData S → CacheData S → Type 0
  Kept c d =
      (d.compression_type ≡ no_compression)
      × (d.cache ≡ c.cache)
      × (d.event_counter ≡ c.event_counter)
      × (d.flags ≡ c.flags)

  compress_with-counter :
      (z : Compressor) (c : CacheData S)
      → ((compress_with st z c).1 ≡ true) ⊎ ((compress_with st z c).0.event_counter ≡ 1)
  unfolding compress_with write_event note_event
  compress_with-counter z c = ground arith

  -- What the result of a compression says, an error or the two outcomes.
  abbrev pub Outcome : Session → CacheData S → CacheData S × Bool → Type 0
  Outcome thd c r =
      (r.1 ≡ true)
      ⊎ ((r.1 ≡ false)
          × (r.0.decompressed_size ≡ st.size c.cache)
          × (r.0.compressed_size ≡ st.size r.0.cache)
          × (Kept c r.0 ⊎ Compressed thd c r.0))

  kept-Outcome :
      (thd : Session) (c : CacheData S)
      → Outcome thd c (recorded st no_compression (st.size c.cache) (c, false))
  kept-Outcome thd c = inr (refl, refl, refl, inl (refl, refl, refl, refl))

  replaced-Outcome :
      (thd : Session) (c : CacheData S) (ctype : ℕ) (r : CacheData S × Bool)
      → can_compress st thd c ≡ true
      → (r.1 ≡ true) ⊎ (r.0.event_counter ≡ 1)
      → Outcome thd c (recorded st ctype (st.size c.cache) r)
  unfolding can_compress may_have_sbr_stmts
  replaced-Outcome thd c ctype (d, true) can h = inl refl
  replaced-Outcome thd c ctype (d, false) can (inl h) = cc
  replaced-Outcome thd c ctype (d, false) can (inr h) = inr (refl, refl, refl, inr (ground arith))

  tried-Outcome :
      (thd : Session) (c : CacheData S) (compressor : Option Compressor)
      → can_compress st thd c ≡ true
      → Outcome thd c (elim compressor [
        | none ↦ recorded st no_compression (st.size c.cache) (c, false)
        | some z ↦ recorded st z.compression_type_code (st.size c.cache) (compress_with st z c)
      ])
  tried-Outcome thd c none can = kept-Outcome thd c
  tried-Outcome thd c (some z) can =
      replaced-Outcome thd c z.compression_type_code (compress_with st z c) can
        (compress_with-counter z c)

  -- Unless it reports an error, a compression records the true size of the cache before it and after it,
  -- and either keeps the bytes, the flags and the count of events, as an uncompressed cache, or leaves one
  -- event; the latter only with the option on, no incident, no change to a non-transactional table,
  -- no statement and some row change in the cache.
  pub compress-Outcome : (thd : Session) (c : CacheData S) → Outcome thd c (compress st thd c)
  unfolding compress
  compress-Outcome thd c =
      if_cases (λ (r : CacheData S × Bool). Outcome thd c r) (can_compress st thd c)
        (tried-Outcome thd c thd.compressor) (λ h. kept-Outcome thd c)
