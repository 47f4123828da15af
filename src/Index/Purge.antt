-- ===== src/Index/Purge.antt =====
-- MYSQL_BIN_LOG::purge_logs and purge_index_entry: old files of the binary log are registered, taken
-- from the index and deleted.

pub mod Chosen
pub mod Deleted
pub mod Whole
use knowledge_base.Base.{
  ℕ, zero, suc, ◌+◌, ◌-◌, Bool, true, false, not, ◌&&◌, ◌||◌, Option, none, some, List, [], ◌∷◌,
  ◌++◌, drop, length, ltb, ◌==◌, map, if◌then◌else◌,
}
use knowledge_base.Index.{
  LogName, IndexError, eof, io, fatal, emfile, file_error, Index, LogInfo, new_info, same_name,
  find_log_pos, find_next_log,
}

-- mysql_file_stat: the size, ENOENT, or another error.
pub data Stat : Type 0 where
  present : ℕ → Stat
  missing unreadable : Stat

-- mysql_file_delete: done, ENOENT, EMFILE, or another error.
pub data Deletion : Type 0 where
  done gone too_many_files failed : Deletion

-- What the files answer, the GTID state and the threads.
pub record Files : Type 0 where
  -- is_active
  pub active : LogName → Bool
  -- log_in_use, not 0
  pub in_use : LogName → Bool
  pub open_fails : Bool
  pub register_fails : LogName → Bool
  pub sync_fails : Bool
  -- the copy of the index, or its renaming where that is an error
  pub remove_fails : Bool
  pub gtid_fails : Bool
  pub reinit_fails : Bool
  pub stat : LogName → Stat
  pub delete : LogName → Deletion
  pub close_fails : Bool

unfoldable pub busy : Files → LogName → Bool
busy f n = f.active n || f.in_use n

-- Adjust_offset, for the LOG_INFO of one thread.
unfoldable pub adjust_offset : ℕ → LogInfo → LogInfo
adjust_offset purge_offset l =
    if ltb l.index_file_offset purge_offset
    then record l { fatal = not (l.index_file_offset == 0) }
    else record l { index_file_offset = l.index_file_offset - purge_offset }

-- The registered names, the files that were deleted, and what was taken from *decrease_log_space.
pub record Purge : Type 0 where
  pub index : Index
  pub threads : List LogInfo
  pub registered : List LogName
  pub deleted : List LogName
  pub freed : ℕ

module _ (normalize : LogName → Option LogName) (f : Files) where
  -- One round of the loop of purge_logs, for the name at which the reader stands; `continue` is the
  -- further rounds. It gives the reader, the registered names and the error.
  unfoldable pub purge_round :
      (LogInfo → List LogName → LogInfo × List LogName × Option IndexError)
      → Index
      → LogName
      → Bool
      → LogInfo
      → List LogName
      → Option LogName
      → LogInfo × List LogName × Option IndexError
  purge_round continue i to_log included l registered none = (l, registered, none)
  purge_round continue i to_log included l registered (some name) =
      let (l', error) = find_next_log normalize i l in
      let registered' = registered ++ (name ∷ []) in
      let exit_loop = same_name to_log name in
      if (exit_loop && not included) || busy f name
      then (l, registered, none)
      else if f.register_fails name
      then (l, registered, some file_error)
      else (elim error [
        | some e ↦ (l', registered', none)
        | none ↦ if exit_loop then (l', registered', none) else continue l' registered'
      ])

  unfoldable pub purge_loop :
      ℕ
      → Index
      → LogName
      → Bool
      → LogInfo
      → List LogName
      → LogInfo × List LogName × Option IndexError
  unfolding purge_round
  purge_loop zero i to_log included l registered = (l, registered, none)
  purge_loop (suc fuel) i to_log included l registered =
      purge_round (λ l' registered'. purge_loop fuel i to_log included l' registered') i to_log
        included l registered l.log_file_name

  -- The entries before the reader go.
  unfoldable pub remove_logs_from_index : Bool → LogInfo → Purge → Purge × Option IndexError
  unfolding adjust_offset
  remove_logs_from_index need_update_threads l p = if f.remove_fails then (p, some io) else (
    record p {
      index = record p.index { entries = drop l.index_file_start_offset p.index.entries };
      threads =
          if need_update_threads
          then map (adjust_offset l.index_file_start_offset) p.threads
          else p.threads;
    },
    none,
  )

  -- One registered name, by what mysql_file_stat, find_log_pos and mysql_file_delete say of it: the
  -- state, and the error that ends the loop.
  unfoldable pub settle_entry :
      LogName → Purge → Stat → Option IndexError → Deletion → Purge × Option IndexError
  settle_entry name p missing found deletion = (p, none)
  settle_entry name p unreadable found deletion = (p, some fatal)
  settle_entry name p (present size) none deletion = (p, none)
  settle_entry name p (present size) (some eof) done =
      (record p { deleted = p.deleted ++ (name ∷ []); freed = p.freed + size }, none)
  settle_entry name p (present size) (some eof) gone = (p, none)
  settle_entry name p (present size) (some eof) too_many_files = (p, some emfile)
  settle_entry name p (present size) (some eof) failed = (p, some fatal)
  settle_entry name p (present size) (some io) deletion = (p, some io)
  settle_entry name p (present size) (some fatal) deletion = (p, some fatal)
  settle_entry name p (present size) (some emfile) deletion = (p, some emfile)
  settle_entry name p (present size) (some file_error) deletion = (p, some file_error)

  unfoldable pub purge_entry : LogName → Purge → Purge × Option IndexError
  unfolding settle_entry
  purge_entry name p =
      settle_entry name p (f.stat name) (find_log_pos normalize p.index new_info (some name)).1
        (f.delete name)

  unfoldable pub purge_entries : List LogName → Purge → Purge × Option IndexError
  purge_entries [] p = (p, none)
  purge_entries (name ∷ names) p =
      let (p', error) = purge_entry name p in
      let rest = purge_entries names p' in elim error [ none ↦ rest | some e ↦ (p', some e) ]

  unfoldable pub purge_index_entry : Purge → Purge × Option IndexError
  purge_index_entry p =
      if f.reinit_fails then (p, some file_error) else purge_entries p.registered p

  -- The label err of purge_logs, where the file of the registered names is open.
  unfoldable pub conclude_purge : Option IndexError → Purge → Purge × Option IndexError
  conclude_purge (some e) p = (record p { registered = [] }, some e)
  conclude_purge none p =
      let (p', error_index) = purge_index_entry p in
      (
        record p' { registered = [] },
        elim error_index [
          | some e ↦ some e
          | none ↦ if f.close_fails then some file_error else none
        ],
      )

  -- After the loop: the registered names are synchronised, then the index is cut and the lost GTIDs
  -- are computed anew.
  unfoldable pub after_loop :
      Bool → Bool → LogInfo × List LogName × Option IndexError → Purge → Purge × Option IndexError
  after_loop need_update_threads is_relay_log (l, registered, some e) p =
      conclude_purge (some e) (record p { registered = registered })
  after_loop need_update_threads is_relay_log (l, registered, none) p =
      let p' = record p { registered = registered } in
      let (removed, e) = remove_logs_from_index need_update_threads l p' in
      if f.sync_fails
      then conclude_purge (some file_error) p'
      else if not is_relay_log && f.gtid_fails
      then conclude_purge (elim e [ none ↦ some file_error | some e' ↦ some e' ]) removed
      else conclude_purge e removed

  -- From the first entry of the index on.
  unfoldable pub purge_from :
      LogName → Bool → Bool → Bool → LogInfo → Purge → Purge × Option IndexError
  unfolding after_loop
  purge_from to_log included need_update_threads is_relay_log l p =
      after_loop need_update_threads is_relay_log
        (purge_loop (suc (length p.index.entries)) p.index to_log included l []) p

  unfoldable pub purge_logs : LogName → Bool → Bool → Bool → Purge → Purge × Option IndexError
  purge_logs to_log included need_update_threads is_relay_log p =
      let (_, unknown) = find_log_pos normalize p.index new_info (some to_log) in
      let (l, empty) = find_log_pos normalize p.index new_info none in
      let opened = record p { registered = [] } in
      elim unknown [
        | some e ↦ conclude_purge (some e) p
        | none ↦ if f.open_fails then conclude_purge (some file_error) p else (elim empty [
          | some e ↦ conclude_purge (some e) opened
          | none ↦ purge_from to_log included need_update_threads is_relay_log l opened
        ])
      ]
