-- ===== src/Event/Layout.antt =====
-- What the bytes of an event are to be: an account of Log_event::write of its own.
use knowledge_base.Base.{
  ℕ, ◌+◌, ◌*◌, ◌/◌, ◌%◌, ◌^◌, ◌==◌, Bool, true, false, not, ◌&&◌, Option, some, List, [], ◌∷◌, ◌++◌,
  length, if◌then◌else◌, ◌≡◌, refl, arith,
}
use knowledge_base.Event.{Calls, LogEvent, header_length, checksum_length, is_in_use, not_in_use}

-- A checksum can be computed in parts.
pub record ChecksumLaws (calls : Calls) : Type 0 where
  pub checksum-nil : (c : ℕ) → calls.checksum_crc32 c [] ≡ c
  pub checksum-append :
      (c : ℕ) (a b : List ℕ)
      → calls.checksum_crc32 c (a ++ b) ≡ calls.checksum_crc32 (calls.checksum_crc32 c a) b

abbrev pub joined : List (List ℕ) → List ℕ
joined [] = []
joined (part ∷ parts) = part ++ joined parts

-- A stream that takes every byte.
abbrev pub keep_all : List ℕ → List ℕ → Option (List ℕ)
keep_all o bytes = some (o ++ bytes)

pub added :
    (b : Bool) (n : ℕ)
    → (if b then n + checksum_length else n) ≡ n + (if b then checksum_length else 0)
added true n = refl
added false n = omega arith

-- The flags with the lowest one cleared.
pub lowest_cleared :
    (flags : ℕ) → (if is_in_use flags then not_in_use flags else flags) ≡ flags / 2 * 2
lowest_cleared flags = ground arith

pub kept_flags :
    (b : Bool) (flags : ℕ)
    → (if b && is_in_use flags then not_in_use flags else flags)
      ≡ (if b then flags / 2 * 2 else flags)
kept_flags true flags = lowest_cleared flags
kept_flags false flags = refl

pub placed :
    (log_pos written total : ℕ)
    → written ≡ total
    → (if not (log_pos == 0) then (log_pos + written) % 2 ^ 64 else log_pos)
      ≡ (if log_pos == 0 then 0 else (log_pos + total) % 2 ^ 64)
placed log_pos written total e = ground (arith, e)

module _ (calls : Calls) where
  abbrev pub footer_bytes : Bool → List ℕ → List ℕ
  footer_bytes has_checksum covered =
      if has_checksum
      then calls.int_store 4 (calls.checksum_crc32 (calls.checksum_crc32 0 []) covered)
      else []

  -- The header of an event, field by field: the time, the type, the server, the length of the event, its
  -- end, and the flags.
  abbrev pub header_bytes : LogEvent → ℕ → ℕ → ℕ → List ℕ
  header_bytes e total end_pos flags =
      calls.int_store 4 e.timestamp
      ++ (e.type_code ∷ [])
      ++ calls.int_store 4 e.server_id
      ++ calls.int_store 4 (total % 2 ^ 32)
      ++ calls.int_store 4 (end_pos % 2 ^ 32)
      ++ calls.int_store 2 flags

  -- The length of an event with this body.
  abbrev pub total_of : LogEvent → List ℕ → ℕ
  total_of e body = length body + header_length + (if e.has_checksum then checksum_length else 0)

  -- Its end, if it has a position.
  abbrev pub end_of : LogEvent → List ℕ → ℕ
  end_of e body = if e.log_pos == 0 then 0 else (e.log_pos + total_of e body) % 2 ^ 64

  -- The bytes of an event: the header, the body, and the checksum over both, where the lowest flag,
  -- LOG_EVENT_BINLOG_IN_USE_F, is taken as 0.
  abbrev pub event_bytes : LogEvent → List ℕ → List ℕ
  event_bytes e body =
      header_bytes e (total_of e body) (end_of e body) e.flags
      ++ body
      ++ footer_bytes e.has_checksum
          (header_bytes e (total_of e body) (end_of e body) (e.flags / 2 * 2) ++ body)
