-- ===== src/Cache/Writer.antt =====
-- Binlog_event_writer: it copies serialized events to the binary log, in whatever parts they come, and
-- corrects the length, the position and the checksum of each.
pub mod Parts
pub mod Loop
pub mod Events
pub mod Whole
pub mod Corrected
mod Tests
use mathlib.Core.Option
use knowledge_base.Base.{
  ℕ, zero, suc, ◌+◌, ◌-◌, ◌%◌, ◌^◌, ◌==◌, ltb, ◌≡◌, Bool, true, false, ◌&&◌, Option, none, some,
  List, [], ◌∷◌, ◌++◌, length, take, drop, if◌then◌else◌,
}

-- LOG_EVENT_HEADER_LEN, EVENT_LEN_OFFSET, LOG_POS_OFFSET and BINLOG_CHECKSUM_LEN.
abbrev pub header_length : ℕ
header_length = 19

abbrev pub event_len_offset : ℕ
event_len_offset = 9

abbrev pub log_pos_offset : ℕ
log_pos_offset = 13

abbrev pub checksum_length : ℕ
checksum_length = 4

-- What the writer calls: Binlog_ofile::write, with none for an error, uint4korr and int4store at an
-- offset, and my_checksum.
pub record Env (F : Type 0) : Type 0 where
  pub write : F → List ℕ → Option F
  pub uint4korr : ℕ → List ℕ → ℕ
  pub int4store : ℕ → ℕ → List ℕ → List ℕ
  pub my_checksum : ℕ → List ℕ → ℕ

-- `header` is the first header_len bytes of the buffer of that name.
pub record Writer (F : Type 0) : Type 0 where
  pub file : F
  pub have_checksum : Bool
  pub initial_checksum : ℕ
  pub checksum : ℕ
  pub end_log_pos : ℕ
  pub header : List ℕ
  pub event_len : ℕ

module _ {F : Type 0} (env : Env F) where
  -- `position` is binlog_file->position(), converted to uint32.
  unfoldable pub init : F → ℕ → Bool → Writer F
  init file position have_checksum = record {
    file = file;
    have_checksum = have_checksum;
    initial_checksum = env.my_checksum 0 [];
    checksum = env.my_checksum 0 [];
    end_log_pos = position % 2 ^ 32;
    header = [];
    event_len = 0;
  }

  -- The header with its length and its position corrected. uint32 arithmetic wraps.
  unfoldable pub update_header : Writer F → Writer F
  update_header w =
      let event_len = env.uint4korr event_len_offset w.header in
      let moved = (w.end_log_pos + event_len) % 2 ^ 32 in
      let end_log_pos = if w.have_checksum then (moved + checksum_length) % 2 ^ 32 else moved in
      let sized =
        if w.have_checksum
        then env.int4store event_len_offset ((event_len + checksum_length) % 2 ^ 32) w.header
        else w.header in
      let header = env.int4store log_pos_offset end_log_pos sized in
      record w {
        header = header;
        end_log_pos = end_log_pos;
        event_len = event_len;
        checksum = if w.have_checksum then env.my_checksum w.checksum header else w.checksum;
      }

  -- What is done when the header is complete. An error drops the writer, as its callers do.
  unfoldable pub complete : Writer F → Option (Writer F)
  complete w =
      let u = update_header w in
      Option.map
        (λ (f : F). record u {
          file = f;
          event_len = (u.event_len + 2 ^ 32 - header_length) % 2 ^ 32;
          header = [];
        })
        (env.write u.file u.header)

  -- Header bytes that have come.
  unfoldable pub fill : List ℕ → Writer F → Option (Writer F)
  fill bytes w =
      let filled = record w { header = w.header ++ bytes } in
      if length filled.header == header_length then complete filled else some filled

  -- The bytes of the checksum follow the last byte of the event.
  unfoldable pub finish : Writer F → Option (Writer F)
  finish w =
      if w.have_checksum && w.event_len == 0
      then Option.map (λ (f : F). record w { file = f; checksum = w.initial_checksum })
          (env.write w.file (env.int4store 0 w.checksum (0 ∷ 0 ∷ 0 ∷ 0 ∷ [])))
      else some w

  -- Bytes of the body that have come.
  unfoldable pub copy : List ℕ → Writer F → Option (Writer F)
  copy bytes w = elim (env.write w.file bytes) [
    | none ↦ none
    | some f ↦ finish (record w {
      file = f;
      checksum = if w.have_checksum then env.my_checksum w.checksum bytes else w.checksum;
      event_len = w.event_len - length bytes;
    })
  ]

  -- How many bytes one round takes. The length is converted to uint32 where the header is filled.
  unfoldable pub taken : Writer F → List ℕ → ℕ
  taken w buffer =
      if w.event_len == 0
      then (if ltb (length buffer % 2 ^ 32) (header_length - length w.header)
          then length buffer % 2 ^ 32
          else header_length - length w.header)
      else if ltb w.event_len (length buffer)
      then w.event_len
      else length buffer

  -- One round of the loop on the bytes that it takes.
  unfoldable pub round : Writer F → List ℕ → Option (Writer F)
  round w bytes = if w.event_len == 0 then fill bytes w else copy bytes w

  -- The loop, on fuel. The outer none means that the fuel ran out, the inner none an error.
  unfoldable pub write_loop : ℕ → Writer F → List ℕ → Option (Option (Writer F))
  write_loop fuel w [] = some (some w)
  write_loop zero w (b ∷ bs) = none
  write_loop (suc fuel) w (b ∷ bs) = elim (round w (take (taken w (b ∷ bs)) (b ∷ bs))) [
    | none ↦ some none
    | some v ↦ write_loop fuel v (drop (taken w (b ∷ bs)) (b ∷ bs))
  ]

  unfoldable pub write : Writer F → List ℕ → Option (Option (Writer F))
  write w buffer = write_loop (length buffer) w buffer
