-- ===== src/Event/Context.antt =====
-- Transaction_context_log_event: what a member sends to the certification of its group.
pub mod Sizes
use knowledge_base.Base.{ℕ, ◌+◌, ◌%◌, ◌^◌, Option, List, [], ◌∷◌, ◌++◌, length, take}
use knowledge_base.Event.{Calls, LogEvent, write}

-- `snapshot_version` is the encoding of the set of that name, by Gtid_set::encode. The strings are their
-- characters, without the zero behind them.
pub record TransactionContext : Type 0 where
  pub server_uuid : List ℕ
  pub thread_id : ℕ
  pub gtid_specified : ℕ
  pub snapshot_version : List ℕ
  pub write_set : List (List ℕ)
  pub read_set : List (List ℕ)

-- TRANSACTION_CONTEXT_HEADER_LEN and ENCODED_READ_WRITE_SET_ITEM_LEN
abbrev pub context_header_length : ℕ
context_header_length = 1 + 4 + 1 + 4 + 4 + 4

abbrev pub item_length_size : ℕ
item_length_size = 2

unfoldable pub get_data_set_size : List (List ℕ) → ℕ
get_data_set_size [] = 0
get_data_set_size (hash ∷ set) = item_length_size + length hash + get_data_set_size set

unfoldable pub get_context_size : TransactionContext → ℕ
get_context_size c =
    context_header_length
    + length c.server_uuid
    + length c.snapshot_version
    + get_data_set_size c.write_set
    + get_data_set_size c.read_set

module _ (calls : Calls) where
  unfoldable pub context_header : TransactionContext → List ℕ
  context_header c =
      (length c.server_uuid % 256 ∷ [])
      ++ calls.int_store 4 c.thread_id
      ++ (c.gtid_specified ∷ [])
      ++ calls.int_store 4 (length c.snapshot_version % 2 ^ 32)
      ++ calls.int_store 4 (length c.write_set % 2 ^ 32)
      ++ calls.int_store 4 (length c.read_set % 2 ^ 32)

  -- The writes of write_data_set, in front of further ones. The length of an item is a uint16.
  unfoldable pub write_data_set : List (List ℕ) → List (List ℕ) → List (List ℕ)
  write_data_set [] parts = parts
  write_data_set (hash ∷ set) parts =
      let len = length hash % 2 ^ 16 in
      calls.int_store item_length_size len ∷ take len hash ∷ write_data_set set parts

  -- Log_event::write with write_data_header and write_data_body of this event.
  unfoldable pub write_context :
      {O : Type 0}
      → (O → List ℕ → Option O)
      → TransactionContext
      → LogEvent × O
      → Option (LogEvent × O)
  write_context put c = write calls put (get_context_size c) (
      context_header c
      ∷ c.server_uuid
      ∷ c.snapshot_version
      ∷ write_data_set c.write_set (write_data_set c.read_set []))
