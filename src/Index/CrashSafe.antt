-- ===== src/Index/CrashSafe.antt =====
-- The crash-safe index file: remove_logs_from_index on the disk, step by step, and open_index_file
-- after a crash.
pub mod Recovered
mod Tests
use knowledge_base.Base.{
  ℕ, zero, suc, ◌-◌, Bool, true, false, not, Option, none, some, List, [], ◌∷◌, ◌++◌, ◌||◌, drop,
  take, length, map, if◌then◌else◌,
}

-- The two files, none where a file does not exist, with their bytes.
pub record Disk : Type 0 where
  pub index_file : Option (List ℕ)
  pub crash_safe_index_file : Option (List ℕ)

abbrev pub contents : Option (List ℕ) → List ℕ
contents none = []
contents (some bytes) = bytes

-- A write over the beginning of a file.
unfoldable pub overwrite : List ℕ → List ℕ → List ℕ
overwrite bytes file = bytes ++ drop (length bytes) file

-- MAX_RETRIES_FOR_DELETE_RENAME_FAILURE
abbrev pub max_retries : ℕ
max_retries = 5

-- A loop over the trials that are left: does one succeed? `fails` knows what each would give.
unfoldable pub retry : ℕ → (ℕ → Bool) → Bool
retry zero fails = false
retry (suc failure_trials) fails =
    let rest = retry failure_trials fails in if fails failure_trials then rest else true

-- What the files answer.
pub record Answers : Type 0 where
  pub open_fails : Bool
  pub copy_fails : Bool
  pub close_fails : Bool
  pub delete_fails : ℕ → Bool
  pub rename_fails : ℕ → Bool
  pub reopen_fails : Bool

-- 0, -1 or LOG_INFO_IO, and exec_binlog_error_action_abort.
pub data Outcome : Type 0 where
  done failed aborted : Outcome

-- The states of the disk so far, the last first, and the outcome.
pub record Run : Type 0 where
  pub disk : Disk
  pub before : List Disk
  pub outcome : Outcome

-- The file is opened without O_TRUNC.
unfoldable pub open_crash_safe_index_file : Disk → Disk
open_crash_safe_index_file d = record d {
  crash_safe_index_file = some (contents d.crash_safe_index_file);
}

-- The writes of copy_file over the file `old`, each of at most `io_size` bytes: what the file holds after
-- each. The fuel is a round for each byte.
unfoldable pub copy_file : ℕ → ℕ → List ℕ → List ℕ → List ℕ → List (List ℕ)
copy_file zero io_size old written rest = []
copy_file (suc fuel) io_size old written [] = []
copy_file (suc fuel) io_size old written (b ∷ rest) =
    let written' = written ++ take io_size (b ∷ rest) in
    overwrite written' old ∷ copy_file fuel io_size old written' (drop io_size (b ∷ rest))

-- The last of the contents that the copy leaves, or the old one.
abbrev pub last_of : List ℕ → List (List ℕ) → List ℕ
last_of old [] = old
last_of old (c ∷ cs) = last_of c cs

abbrev pub with_copy : Disk → List ℕ → Disk
with_copy d bytes = record d { crash_safe_index_file = some bytes }

-- move_crash_safe_index_file_to_index_file, from a disk that was reached through `before`.
unfoldable pub move_crash_safe_index_file : Answers → Disk → List Disk → Run
unfolding retry
move_crash_safe_index_file a d before =
    let deleted = record d { index_file = none } in
    let given_up = record d { crash_safe_index_file = none } in
    let renamed : Disk = record {
      index_file = d.crash_safe_index_file;
      crash_safe_index_file = none;
    } in
    if not (retry max_retries a.delete_fails)
    then record { disk = given_up; before = d ∷ before; outcome = failed }
    else if not (retry max_retries a.rename_fails)
    then record { disk = deleted; before = d ∷ before; outcome = aborted }
    else record {
      disk = renamed;
      before = deleted ∷ d ∷ before;
      outcome = if a.reopen_fails then aborted else done;
    }

abbrev pub reversed : List Disk → List Disk → List Disk
reversed acc [] = acc
reversed acc (d ∷ ds) = reversed (d ∷ acc) ds

-- The index loses its first `offset` bytes.
unfoldable pub remove_logs_from_index : Answers → ℕ → ℕ → Disk → Run
unfolding open_crash_safe_index_file move_crash_safe_index_file
remove_logs_from_index a io_size offset d =
    let opened = open_crash_safe_index_file d in
    let source = drop offset (contents d.index_file) in
    let old = contents d.crash_safe_index_file in
    let copies = copy_file (length source) io_size old [] source in
    let copied = with_copy d (last_of old copies) in
    let before = reversed (opened ∷ d ∷ []) (map (with_copy d) copies) in
    if a.open_fails
    then record { disk = d; before = []; outcome = failed }
    else if a.copy_fails || a.close_fails
    then record { disk = copied; before = before; outcome = failed }
    else move_crash_safe_index_file a copied before

-- open_index_file after a restart, where the renaming succeeds: what the index then holds.
unfoldable pub open_index_file : Disk → Disk
open_index_file d = elim d.index_file [
  | some bytes ↦ d
  | none ↦ elim d.crash_safe_index_file [
    | some bytes ↦ record { index_file = some bytes; crash_safe_index_file = none }
    | none ↦ record d { index_file = some [] }
  ]
]
