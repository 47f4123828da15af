-- ===== src/Cache/Data.antt =====
-- binlog_cache_data: the bytes, the pending rows event, and the flags that describe the content.
pub mod Content
pub mod Finalize
use knowledge_base.Base.{
  ℕ, ◌+◌, ltb, ◌==◌, Bool, true, false, not, ◌&&◌, ◌||◌, Option, none, some, List, [], ◌∷◌, find,
  insert, if◌then◌else◌,
}
use knowledge_base.Cache.Storage.{Storage}

pub record Flags : Type 0 where
  pub transactional : Bool
  pub incident : Bool
  pub immediate : Bool
  pub finalized : Bool
  pub with_xid : Bool
  pub with_sbr : Bool
  pub with_rbr : Bool
  pub with_start : Bool
  pub with_end : Bool
  pub with_content : Bool

-- What is restored by ROLLBACK TO SAVEPOINT.
pub record CacheState : Type 0 where
  pub with_sbr : Bool
  pub with_rbr : Bool
  pub with_start : Bool
  pub with_end : Bool
  pub with_content : Bool
  pub event_counter : ℕ

-- What the cache asks of an event, and its bytes; `none` where binary_event_serialize fails.
pub record CachedEvent : Type 0 where
  pub bytes : Option (List ℕ)
  pub is_xid_event : Bool
  pub is_using_immediate_logging : Bool
  pub is_atomic_ddl_event : Bool
  pub is_sbr_logging_format : Bool
  pub is_rbr_logging_format : Bool
  pub starts_group : Bool
  pub ends_group : Bool

pub record CacheData (S : Type 0) : Type 0 where
  pub flags : Flags
  pub cache_state_map : List (ℕ × CacheState)
  pub event_counter : ℕ
  pub compressed_size : ℕ
  pub decompressed_size : ℕ
  pub compression_type : ℕ
  pub cache : S
  -- the pending rows event, as it is written with STMT_END_F set
  pub pending : Option CachedEvent
  -- the status variables behind ptr_binlog_cache_use and ptr_binlog_cache_disk_use
  pub binlog_cache_use : ℕ
  pub binlog_cache_disk_use : ℕ

-- The code of binary_log::transaction::compression::NONE.
abbrev pub no_compression : ℕ
no_compression = 255

abbrev pub is_none {ℓ} : {A : Type ℓ} → Option A → Bool
is_none none = true
is_none (some a) = false

-- What compress reads of the session: the option, the two tests for changes to non-transactional
-- tables, and the compressor, if there is one.
pub record Compressor : Type 0 where
  pub compression_type_code : ℕ
  pub buffer_fails : Bool
  pub copy_fails : Bool
  pub truncate_fails : Bool
  -- the Transaction_payload_log_event that holds the compressed bytes
  pub payload_event : CachedEvent

pub record Session : Type 0 where
  pub binlog_trx_compression : Bool
  pub modified_non_trans_stmt : Bool
  pub modified_non_trans_session : Bool
  pub compressor : Option Compressor

module _ {S : Type 0} (st : Storage S) where
  unfoldable pub init : Bool → S → CacheData S
  init trx_cache empty = record {
    flags = record {
      transactional = trx_cache;
      incident = false;
      immediate = false;
      finalized = false;
      with_xid = false;
      with_sbr = false;
      with_rbr = false;
      with_start = false;
      with_end = false;
      with_content = false;
    };
    cache_state_map = [];
    event_counter = 0;
    compressed_size = 0;
    decompressed_size = 0;
    compression_type = no_compression;
    cache = empty;
    pending = none;
    binlog_cache_use = 0;
    binlog_cache_disk_use = 0;
  }

  unfoldable pub is_binlog_empty : CacheData S → Bool
  is_binlog_empty c = is_none c.pending && st.size c.cache == 0

  unfoldable pub may_have_sbr_stmts : CacheData S → Bool
  may_have_sbr_stmts c = c.flags.with_sbr || not c.flags.with_rbr

  unfoldable pub has_empty_transaction : CacheData S → Bool
  has_empty_transaction c = c.flags.with_start && c.flags.with_end && not c.flags.with_content

  unfoldable pub is_empty_or_has_empty_transaction : CacheData S → Bool
  is_empty_or_has_empty_transaction c = is_binlog_empty c || has_empty_transaction c

  abbrev pub current_state : CacheData S → CacheState
  current_state c = record {
    with_sbr = c.flags.with_sbr;
    with_rbr = c.flags.with_rbr;
    with_start = c.flags.with_start;
    with_end = c.flags.with_end;
    with_content = c.flags.with_content;
    event_counter = c.event_counter;
  }

  unfoldable pub cache_state_checkpoint : ℕ → CacheData S → CacheData S
  cache_state_checkpoint pos c =
      if pos == 0
      then c
      else record c { cache_state_map = insert pos (current_state c) c.cache_state_map }

  abbrev pub with_state : CacheState → CacheData S → CacheData S
  with_state s c = record c {
    flags = record c.flags {
      with_sbr = s.with_sbr;
      with_rbr = s.with_rbr;
      with_start = s.with_start;
      with_end = s.with_end;
      with_content = s.with_content;
    };
    event_counter = s.event_counter;
  }

  abbrev pub blank : CacheState
  blank = record {
    with_sbr = false;
    with_rbr = false;
    with_start = false;
    with_end = false;
    with_content = false;
    event_counter = 0;
  }

  unfoldable pub cache_state_rollback : ℕ → CacheData S → CacheData S
  cache_state_rollback pos c =
      if not (pos == 0)
      then elim (find pos c.cache_state_map) [ none ↦ c | some s ↦ with_state s c ]
      else with_state blank c

  unfoldable pub remove_pending_event : CacheData S → CacheData S
  remove_pending_event c = record c { pending = none }

  unfoldable pub compute_statistics : CacheData S → CacheData S
  compute_statistics c =
      if not (is_binlog_empty c)
      then record c {
        binlog_cache_use = c.binlog_cache_use + 1;
        binlog_cache_disk_use =
            if not (st.disk_writes c.cache == 0)
            then c.binlog_cache_disk_use + 1
            else c.binlog_cache_disk_use;
      }
      else c

  -- A failure to shrink the storage is only logged.
  unfoldable pub reset : CacheData S → CacheData S
  reset c =
      let d = remove_pending_event (compute_statistics c) in
      record d {
        cache = st.clear d.cache;
        flags = record {
          transactional = d.flags.transactional;
          incident = false;
          immediate = false;
          finalized = false;
          with_xid = false;
          with_sbr = false;
          with_rbr = false;
          with_start = false;
          with_end = false;
          with_content = false;
        };
        cache_state_map = [];
        event_counter = 0;
        compressed_size = 0;
        decompressed_size = 0;
        compression_type = no_compression;
      }

  unfoldable pub truncate : ℕ → CacheData S → CacheData S
  truncate pos c = let d = remove_pending_event c in record d { cache = st.cut d.cache pos }

  -- The flags that an event sets.
  unfoldable pub note_event : CachedEvent → CacheData S → CacheData S
  note_event ev c = record c {
    flags = record c.flags {
      with_xid = c.flags.with_xid || ev.is_xid_event || ev.is_atomic_ddl_event;
      immediate = c.flags.immediate || ev.is_using_immediate_logging;
      with_sbr = c.flags.with_sbr || ev.is_sbr_logging_format;
      with_rbr = c.flags.with_rbr || ev.is_rbr_logging_format;
      with_start = c.flags.with_start || ev.starts_group;
      with_end = c.flags.with_end || ev.ends_group;
      with_content = c.flags.with_content || (not ev.starts_group && not ev.ends_group);
    };
    event_counter = c.event_counter + 1;
  }

  -- The new cache, and whether there was an error. A null event changes nothing.
  unfoldable pub write_event : Option CachedEvent → CacheData S → CacheData S × Bool
  write_event none c = (c, false)
  write_event (some ev) c = elim ev.bytes [
    | none ↦ (c, true)
    | some bytes ↦ (note_event ev (record c { cache = st.append c.cache bytes }), false)
  ]

  unfoldable pub flush_pending_event : CacheData S → CacheData S × Bool
  flush_pending_event c = write_event c.pending c

  -- Whether the compression is tried at all.
  unfoldable pub can_compress : Session → CacheData S → Bool
  can_compress thd c =
      thd.binlog_trx_compression
      && not c.flags.incident
      && not thd.modified_non_trans_stmt
      && not thd.modified_non_trans_session
      && not (may_have_sbr_stmts c)

  -- The sizes that are recorded at the end, if there was no error.
  abbrev pub recorded : ℕ → ℕ → CacheData S × Bool → CacheData S × Bool
  recorded ctype uncompressed_size (c, true) = (c, true)
  recorded ctype uncompressed_size (c, false) = (
    record c {
      compression_type = ctype;
      compressed_size = st.size c.cache;
      decompressed_size = uncompressed_size;
    },
    false,
  )

  -- The events are replaced by one that holds their compressed bytes.
  unfoldable pub compress_with : Compressor → CacheData S → CacheData S × Bool
  compress_with z c =
      if z.buffer_fails || z.copy_fails || z.truncate_fails
      then (c, true)
      else write_event (some z.payload_event)
          (record c { cache = st.cut c.cache 0; event_counter = 0 })

  unfoldable pub compress : Session → CacheData S → CacheData S × Bool
  compress thd c =
      let uncompressed_size = st.size c.cache in
      if can_compress thd c
      then elim thd.compressor [
        | none ↦ recorded no_compression uncompressed_size (c, false)
        | some z ↦ recorded z.compression_type_code uncompressed_size (compress_with z c)
      ]
      else recorded no_compression uncompressed_size (c, false)

  -- A step that is skipped after an error.
  abbrev pub then_do : CacheData S × Bool → (CacheData S → CacheData S × Bool) → CacheData S × Bool
  then_do (c, true) f = (c, true)
  then_do (c, false) f = f c

  unfoldable pub finalize : Session → Option CachedEvent → CacheData S → CacheData S × Bool
  finalize thd end_event c =
      let done = then_do (flush_pending_event c) λ c₁. then_do (write_event end_event c₁) λ c₂.
        then_do (compress thd c₂)
          λ c₃. (record c₃ { flags = record c₃.flags { finalized = true } }, false) in
      if not (is_binlog_empty c) then done else (c, false)

  -- The overload for a prepared XA transaction: the XA END query `qev` goes first.
  unfoldable pub finalize_xa :
      Session → Option CachedEvent → CachedEvent → CacheData S → CacheData S × Bool
  finalize_xa thd end_event qev c = then_do (write_event (some qev) c) (finalize thd end_event)
