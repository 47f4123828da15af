-- ===== src/Event.antt =====
-- Log_event: the header, the checksum and the footer of an event, and the events of a fixed shape, as they
-- are written to a stream.
pub mod Gtid
pub mod Layout
pub mod Framed
pub mod Context
pub mod Announced
mod Tests
use mathlib.Core.Option
use knowledge_base.Base.{
  ℕ, zero, suc, ◌+◌, ◌-◌, ◌%◌, ◌/◌, ◌^◌, ◌==◌, Bool, true, false, not, ◌&&◌, Option, none, some,
  List, [], ◌∷◌, ◌++◌, length, if◌then◌else◌,
}

-- What the events call: intNstore, by its width in bytes, checksum_crc32, net_store_length and
-- net_length_size, get_commit_timestamp_length and get_server_version_length, by their two values.
pub record Calls : Type 0 where
  pub int_store : ℕ → ℕ → List ℕ
  pub checksum_crc32 : ℕ → List ℕ → ℕ
  pub net_store_length : ℕ → List ℕ
  pub net_length_size : ℕ → ℕ
  pub get_commit_timestamp_length : ℕ → ℕ → ℕ
  pub get_server_version_length : ℕ → ℕ → ℕ

-- LOG_EVENT_HEADER_LEN and BINLOG_CHECKSUM_LEN.
abbrev pub header_length : ℕ
header_length = 19

abbrev pub checksum_length : ℕ
checksum_length = 4

-- Log_event with its common header. `has_checksum` is need_checksum(), whose answer the first call
-- settles.
pub record LogEvent : Type 0 where
  pub timestamp : ℕ
  pub type_code : ℕ
  pub server_id : ℕ
  pub data_written : ℕ
  pub log_pos : ℕ
  pub flags : ℕ
  pub has_checksum : Bool
  pub crc : ℕ

-- LOG_EVENT_BINLOG_IN_USE_F is the lowest bit.
abbrev pub is_in_use : ℕ → Bool
is_in_use flags = not (flags % 2 == 0)

abbrev pub not_in_use : ℕ → ℕ
not_in_use flags = flags - flags % 2

module _ (calls : Calls) where
  -- The fields stand one behind another.
  unfoldable pub write_header_to_memory : LogEvent → List ℕ
  write_header_to_memory e =
      calls.int_store 4 e.timestamp
      ++ (e.type_code ∷ [])
      ++ calls.int_store 4 e.server_id
      ++ calls.int_store 4 (e.data_written % 2 ^ 32)
      ++ calls.int_store 4 (e.log_pos % 2 ^ 32)
      ++ calls.int_store 2 e.flags

  -- The lengths and the position that the header gets.
  unfoldable pub measured : ℕ → LogEvent → LogEvent
  measured event_data_length e =
      let written = event_data_length + header_length in
      let data_written = if e.has_checksum then written + checksum_length else written in
      record e {
        data_written = data_written;
        crc = if e.has_checksum then calls.checksum_crc32 0 [] else e.crc;
        log_pos = if not (e.log_pos == 0) then (e.log_pos + data_written) % 2 ^ 64 else e.log_pos;
      }

  unfoldable pub cleared : LogEvent → LogEvent
  cleared e = record e {
    flags = if e.has_checksum && is_in_use e.flags then not_in_use e.flags else e.flags;
  }

  -- The checksum covers the header with LOG_EVENT_BINLOG_IN_USE_F cleared.
  unfoldable pub header_sent : LogEvent → LogEvent
  header_sent e = record (cleared e) {
    crc = calls.checksum_crc32 e.crc (write_header_to_memory (cleared e));
  }

  -- The checksum after further bytes.
  unfoldable pub crc_after : Bool → ℕ → List ℕ → ℕ
  crc_after has_checksum crc bytes = if has_checksum then calls.checksum_crc32 crc bytes else crc

-- `put` is Basic_ostream::write, none for an error, after which the event is not used further.
module _ {O : Type 0} (calls : Calls) (put : O → List ℕ → Option O) where
  unfoldable pub write_header : ℕ → LogEvent × O → Option (LogEvent × O)
  write_header event_data_length (e, o) =
      let m = measured calls event_data_length e in
      Option.map (λ (o' : O). (header_sent calls m, o')) (put o (write_header_to_memory calls m))

  unfoldable pub wrapper_my_b_safe_write : List ℕ → LogEvent × O → Option (LogEvent × O)
  wrapper_my_b_safe_write [] s = some s
  wrapper_my_b_safe_write (b ∷ buf) (e, o) =
      let e' = record e { crc = crc_after calls e.has_checksum e.crc (b ∷ buf) } in
      Option.map (λ (o' : O). (e', o')) (put o (b ∷ buf))

  unfoldable pub write_footer : LogEvent × O → Option (LogEvent × O)
  write_footer (e, o) =
      if e.has_checksum
      then Option.map (λ (o' : O). (e, o')) (put o (calls.int_store 4 e.crc))
      else some (e, o)

  -- The parts of a body, in their order.
  unfoldable pub write_parts : List (List ℕ) → LogEvent × O → Option (LogEvent × O)
  write_parts [] s = some s
  write_parts (part ∷ parts) s =
      Option.bind (wrapper_my_b_safe_write part s) (λ (s' : LogEvent × O). write_parts parts s')

  -- Log_event::write for an event of the given data size whose data header and body are `parts`.
  unfoldable pub write : ℕ → List (List ℕ) → LogEvent × O → Option (LogEvent × O)
  write data_size parts s =
      Option.bind (write_header data_size s)
        (λ (s' : LogEvent × O). Option.bind (write_parts parts s') write_footer)

  -- Rotate_log_event::write
  unfoldable pub write_rotate : ℕ → List ℕ → LogEvent × O → Option (LogEvent × O)
  write_rotate pos new_log_ident =
      write (8 + length new_log_ident) (calls.int_store 8 pos ∷ new_log_ident ∷ [])

  -- Intvar_log_event::write
  unfoldable pub write_intvar : ℕ → ℕ → LogEvent × O → Option (LogEvent × O)
  write_intvar type val = write 9 ((type ∷ calls.int_store 8 val) ∷ [])

  -- Rand_log_event::write
  unfoldable pub write_rand : ℕ → ℕ → LogEvent × O → Option (LogEvent × O)
  write_rand seed1 seed2 = write 16 ((calls.int_store 8 seed1 ++ calls.int_store 8 seed2) ∷ [])

  -- Xid_log_event::write, on a machine whose least byte is the first.
  unfoldable pub write_xid : ℕ → LogEvent × O → Option (LogEvent × O)
  write_xid xid = write 8 (calls.int_store 8 xid ∷ [])
