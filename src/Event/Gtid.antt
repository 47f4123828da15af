-- ===== src/Event/Gtid.antt =====
-- Gtid_log_event: what it writes, and the length of the transaction that it announces.
pub mod Sizes
pub mod Fields
use knowledge_base.Base.{
  ℕ, suc, ◌+◌, ◌-◌, ◌*◌, ◌%◌, ◌/◌, ◌^◌, ◌==◌, leb, ltb, Bool, true, false, not, Option, List, [],
  ◌∷◌, ◌++◌, length, if◌then◌else◌,
}
use knowledge_base.Event.{Calls, header_length, checksum_length, LogEvent, write}

-- The two numbers of the logical clock are an int64's bits.
pub record GtidLogEvent : Type 0 where
  pub may_have_sbr_stmts : Bool
  pub sid : List ℕ
  pub gno : ℕ
  pub last_committed : ℕ
  pub sequence_number : ℕ
  pub immediate_commit_timestamp : ℕ
  pub original_commit_timestamp : ℕ
  pub transaction_length : ℕ
  pub immediate_server_version : ℕ
  pub original_server_version : ℕ

-- The flag, the SID, the GNO, the type code and the two timestamps.
abbrev pub post_header_length : ℕ
post_header_length = 1 + 16 + 8 + 1 + 16

-- FLAG_MAY_HAVE_SBR and LOGICAL_TIMESTAMP_TYPECODE
abbrev pub flag_may_have_sbr : ℕ
flag_may_have_sbr = 1

abbrev pub logical_timestamp_typecode : ℕ
logical_timestamp_typecode = 2

-- The bit of the value 2 ^ k, set or cleared by | and &.
unfoldable pub set_bit : ℕ → ℕ → ℕ
set_bit k n = if n / 2 ^ k % 2 == 0 then n + 2 ^ k else n

unfoldable pub clear_bit : ℕ → ℕ → ℕ
clear_bit k n = if n / 2 ^ k % 2 == 0 then n else n - 2 ^ k

-- event_counter * BINLOG_CHECKSUM_LEN, where the counter is converted to an int, the product is one of
-- ints, which wraps here where C++ leaves an overflow undefined, and the sum that it goes to extends its
-- sign to 64 bits.
unfoldable pub event_checksums : ℕ → ℕ
event_checksums event_counter =
    let product = event_counter * checksum_length % 2 ^ 32 in
    if ltb product (2 ^ 31) then product else product + (2 ^ 64 - 2 ^ 32)

module _ (calls : Calls) where
  unfoldable pub write_post_header_to_memory : GtidLogEvent → List ℕ
  write_post_header_to_memory e =
      ((if e.may_have_sbr_stmts then flag_may_have_sbr else 0) ∷ [])
      ++ e.sid
      ++ calls.int_store 8 e.gno
      ++ (logical_timestamp_typecode ∷ [])
      ++ calls.int_store 8 e.last_committed
      ++ calls.int_store 8 e.sequence_number

  -- A value with the flag in its highest bit that tells whether the original value follows, as two
  -- numbers of `width` bytes at most.
  unfoldable pub store_flagged : ℕ → ℕ → ℕ → ℕ → List ℕ
  store_flagged width bit immediate original =
      if not (immediate == original)
      then calls.int_store width (set_bit bit immediate) ++ calls.int_store width original
      else calls.int_store width (clear_bit bit immediate)

  unfoldable pub write_body_to_memory : GtidLogEvent → List ℕ
  write_body_to_memory e =
      store_flagged 7 55 e.immediate_commit_timestamp e.original_commit_timestamp
      ++ calls.net_store_length e.transaction_length
      ++ store_flagged 4 31 e.immediate_server_version e.original_server_version

  unfoldable pub get_data_size : GtidLogEvent → ℕ
  get_data_size e =
      post_header_length
      + calls.get_commit_timestamp_length e.immediate_commit_timestamp e.original_commit_timestamp
      + calls.net_length_size e.transaction_length
      + calls.get_server_version_length e.immediate_server_version e.original_server_version

  unfoldable pub get_event_length : GtidLogEvent → ℕ
  get_event_length e = header_length + get_data_size e

  -- The length of the field itself is counted in.
  unfoldable pub with_length_field : ℕ → ℕ
  with_length_field transaction_length =
      let one = (transaction_length + 1) % 2 ^ 64 in
      let three = (one + 2) % 2 ^ 64 in
      let four = (three + 1) % 2 ^ 64 in
      let nine = (four + 5) % 2 ^ 64 in
      if leb 251 one
      then (if leb 65536 three then (if leb 16777216 four then nine else four) else three)
      else one

  -- The sum before it: every addition is one of unsigned 64-bit numbers.
  unfoldable pub set_trx_length_by_cache_size : ℕ → Bool → ℕ → GtidLogEvent → GtidLogEvent
  set_trx_length_by_cache_size cache_size is_checksum_enabled event_counter e =
      let content =
        if is_checksum_enabled then cache_size + event_checksums event_counter else cache_size in
      let fixed =
        content
        + header_length
        + post_header_length
        + calls.get_commit_timestamp_length e.immediate_commit_timestamp e.original_commit_timestamp
        + calls.get_server_version_length e.immediate_server_version e.original_server_version
        + (if is_checksum_enabled then checksum_length else 0) in
      record e { transaction_length = with_length_field (fixed % 2 ^ 64) }

  -- Log_event::write with the two methods write_data_header and write_data_body of this event.
  unfoldable pub write_gtid :
      {O : Type 0} → (O → List ℕ → Option O) → GtidLogEvent → LogEvent × O → Option (LogEvent × O)
  write_gtid put e =
      write calls put (get_data_size e)
        (write_post_header_to_memory e ∷ write_body_to_memory e ∷ [])
