-- ===== src/Index.antt =====
-- The index file of the binary log: the names of its files, in their order, as one entry each.
pub mod Listing
pub mod Purge
pub mod CrashSafe
pub mod BeforeDate
mod Tests
use Prim.Native.String.{String}
use text.Mathlib.Text.{◌==◌}
use knowledge_base.Base.{
  ℕ, zero, suc, ◌+◌, Bool, true, false, not, Option, none, some, List, [], ◌∷◌, ◌++◌, drop, length,
  if◌then◌else◌,
}

-- A full name, split where dirname_length splits it.
pub record LogName : Type 0 where
  pub dirname : String
  pub basename : String

-- compare_log_name(log_1, log_2) == 0
unfoldable pub same_name : LogName → LogName → Bool
same_name log_1 log_2 = log_1.basename == log_2.basename

-- LOG_INFO_EOF, LOG_INFO_IO, LOG_INFO_FATAL, LOG_INFO_EMFILE, and the other errors of the files.
pub data IndexError : Type 0 where
  eof io fatal emfile file_error : IndexError

-- The open index file. `read_error` is index_file.error once a read finds no further line.
pub record Index : Type 0 where
  pub inited : Bool
  pub entries : List LogName
  pub read_error : Bool

-- LOG_INFO. Its offsets count entries, and its name is none where it is empty.
pub record LogInfo : Type 0 where
  pub log_file_name : Option LogName
  pub index_file_offset : ℕ
  pub index_file_start_offset : ℕ
  pub entry_index : ℕ
  pub fatal : Bool

abbrev pub new_info : LogInfo
new_info = record {
  log_file_name = none;
  index_file_offset = 0;
  index_file_start_offset = 0;
  entry_index = 0;
  fatal = false;
}

unfoldable pub end_of_index : Index → IndexError
end_of_index i = if not i.read_error then eof else io

abbrev pub first : List LogName → Option LogName
first [] = none
first (n ∷ ns) = some n

-- `normalize` is normalize_binlog_name, none for its error.
module _ (normalize : LogName → Option LogName) where
  -- Does the entry match? No name matches anything.
  unfoldable pub matches : Option LogName → LogName → Bool
  matches none full = true
  matches (some log_name) full = same_name full log_name

  -- The loop of find_log_pos, from the entry number `at` on.
  unfoldable pub find_entry :
      Index → Option LogName → List LogName → ℕ → LogInfo → LogInfo × Option IndexError
  find_entry i log_name [] at l = (l, some (end_of_index i))
  find_entry i log_name (n ∷ ns) at l = elim (normalize n) [
    | none ↦ (l, some eof)
    | some full ↦
        let read = record l { log_file_name = some full } in
        let rest =
          find_entry i log_name ns (suc at) (record read { entry_index = read.entry_index + 1 }) in
        if matches log_name full
        then (record read { index_file_start_offset = at; index_file_offset = suc at }, none)
        else rest
  ]

  -- The search, once the name is normalized.
  unfoldable pub find_named : Index → LogInfo → Option LogName → LogInfo × Option IndexError
  find_named i l none = find_entry i none i.entries 0 l
  find_named i l (some n) = elim (normalize n) [
    | none ↦ (l, some eof)
    | some full ↦ find_entry i (some full) i.entries 0 l
  ]

  unfoldable pub find_log_pos : Index → LogInfo → Option LogName → LogInfo × Option IndexError
  unfolding find_named
  find_log_pos i l log_name =
      let cleared = record l { log_file_name = none } in
      if i.inited then find_named i cleared log_name else (cleared, some io)

  -- What find_next_log makes of the line that it reads.
  unfoldable pub take_entry : Index → LogInfo → Option LogName → LogInfo × Option IndexError
  take_entry i started none = (started, some (end_of_index i))
  take_entry i started (some n) = elim (normalize n) [
    | none ↦ (started, some eof)
    | some full ↦ (
      record started {
        log_file_name = some full;
        index_file_offset = suc started.index_file_offset;
      },
      none,
    )
  ]

  unfoldable pub find_next_log : Index → LogInfo → LogInfo × Option IndexError
  unfolding take_entry
  find_next_log i l =
      if i.inited
      then take_entry i (record l { index_file_start_offset = l.index_file_offset })
          (first (drop l.index_file_offset i.entries))
      else (l, some io)

  abbrev names : Option LogName → List LogName
  names none = []
  names (some n) = n ∷ []

  -- The loop of get_log_index, on fuel; none means that the fuel ran out.
  unfoldable pub list_entries :
      ℕ → Index → LogInfo × Option IndexError → List LogName → Option (IndexError × List LogName)
  list_entries zero i r filename_list = none
  list_entries (suc fuel) i (l, error) filename_list =
      let rest = list_entries fuel i (find_next_log i l) (filename_list ++ names l.log_file_name) in
      elim error [ some e ↦ some (e, filename_list) | none ↦ rest ]

  -- The fuel is a round for each entry, one to find the end and one to leave.
  unfoldable pub get_log_index : Index → Option (IndexError × List LogName)
  get_log_index i = list_entries (suc (suc (length i.entries))) i (find_log_pos i new_info none) []
