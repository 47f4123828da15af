-- ===== src/Index/BeforeDate.antt =====
-- MYSQL_BIN_LOG::purge_logs_before_date: which file an expiry by date purges up to.
pub mod Aged
pub mod Whole
use knowledge_base.Base.{
  ℕ, zero, suc, ltb, Bool, true, false, not, Option, none, some, length, if◌then◌else◌,
}
use knowledge_base.Index.{
  LogName, IndexError, fatal, Index, LogInfo, new_info, find_log_pos, find_next_log,
}
use knowledge_base.Index.Purge.{Files, Stat, present, missing, unreadable, Purge, purge_logs}

-- What one round of the loop does with a file: it ends the loop, without an error or with one, or it
-- goes on with this file to purge up to.
pub data Verdict : Type 0 where
  ends ends_fatally : Verdict
  goes_on : Option LogName → Verdict

-- `modified` is the st_mtime of a file.
module _ (normalize : LogName → Option LogName) (f : Files) (modified : LogName → ℕ)
    (purge_time : ℕ) where
  unfoldable pub judge_stat : LogName → Option LogName → Stat → Verdict
  judge_stat name to_log missing = goes_on to_log
  judge_stat name to_log unreadable = ends_fatally
  judge_stat name to_log (present size) =
      if ltb (modified name) purge_time
      then (if f.in_use name then ends else goes_on (some name))
      else ends

  unfoldable pub judge : LogName → Option LogName → Verdict
  judge name to_log = if f.active name then ends else judge_stat name to_log (f.stat name)

  -- What a verdict leads to: the file to purge up to and the error; `continue` is the further rounds.
  unfoldable pub follow :
      (LogInfo → Option LogName → Option LogName × Option IndexError)
      → LogInfo × Option IndexError
      → Option LogName
      → Verdict
      → Option LogName × Option IndexError
  follow continue next to_log ends = (to_log, none)
  follow continue next to_log ends_fatally = (to_log, some fatal)
  follow continue (l, some e) to_log (goes_on to_log') = (to_log', none)
  follow continue (l, none) to_log (goes_on to_log') = continue l to_log'

  unfoldable pub date_round :
      (LogInfo → Option LogName → Option LogName × Option IndexError)
      → Index
      → LogInfo
      → Option LogName
      → Option LogName
      → Option LogName × Option IndexError
  unfolding follow judge
  date_round continue i l to_log none = (to_log, none)
  date_round continue i l to_log (some name) =
      follow continue (find_next_log normalize i l) to_log (judge name to_log)

  unfoldable pub date_loop :
      ℕ → Index → LogInfo → Option LogName → Option LogName × Option IndexError
  unfolding date_round
  date_loop zero i l to_log = (to_log, none)
  date_loop (suc fuel) i l to_log =
      date_round (λ l' to_log'. date_loop fuel i l' to_log') i l to_log l.log_file_name

  -- The fuel is a round for each entry.
  unfoldable pub choose_to_log :
      Index → LogInfo × Option IndexError → Option LogName × Option IndexError
  choose_to_log i (l, some e) = (none, some e)
  choose_to_log i (l, none) = date_loop (suc (length i.entries)) i l none

  -- The purge that follows.
  unfoldable pub purge_chosen :
      Bool → Purge → Option LogName × Option IndexError → Purge × Option IndexError
  purge_chosen is_relay_log p (to_log, some e) = (p, some e)
  purge_chosen is_relay_log p (none, none) = (p, none)
  purge_chosen is_relay_log p (some to_log, none) =
      purge_logs normalize f to_log true true is_relay_log p

  unfoldable pub purge_logs_before_date : Bool → Purge → Purge × Option IndexError
  unfolding choose_to_log purge_chosen
  purge_logs_before_date is_relay_log p =
      purge_chosen is_relay_log p
        (choose_to_log p.index (find_log_pos normalize p.index new_info none))
