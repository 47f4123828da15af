-- ===== src/Index/Tests.antt =====
-- Four files, of which the third is in use and the last is written.
use Prim.Native.String.{String}
use knowledge_base.Base.{ℕ, true, false, none, some, [], ◌∷◌, ◌≡◌, refl, Option, if◌then◌else◌}
use knowledge_base.Index.{
  LogName, eof, Index, new_info, same_name, matches, find_entry, find_log_pos, find_next_log,
  end_of_index, get_log_index,
}
use knowledge_base.Index.Listing.{get_log_index-Listed}
use knowledge_base.Index.Purge.{
  Files, present, done, Purge, busy, purge_loop, purge_logs, conclude_purge, purge_from,
  purge_index_entry, purge_entries, purge_entry, remove_logs_from_index,
}
use knowledge_base.Index.BeforeDate.{judge, judge_stat, date_loop, purge_logs_before_date}
use knowledge_base.Index.BeforeDate.Whole.{AgedPurge, purge_logs_before_date-Aged}
use knowledge_base.Index.Purge.Whole.{Purging, purge_logs-Purging}

abbrev file : String → LogName
file name = record { dirname = "/data/"; basename = name }

abbrev four : Index
four = record {
  inited = true;
  entries = file "b.1" ∷ file "b.2" ∷ file "b.3" ∷ file "b.4" ∷ [];
  read_error = false;
}

abbrev keep : LogName → Option LogName
keep n = some n

get_log_index-Listed_example :
    get_log_index keep four ≡ some (eof, file "b.1" ∷ file "b.2" ∷ file "b.3" ∷ file "b.4" ∷ [])
unfolding end_of_index
get_log_index-Listed_example =
    get_log_index-Listed keep four refl (refl, (refl, (refl, (refl, tt))))

abbrev files : Files
files = record {
  active = same_name (file "b.4");
  in_use = same_name (file "b.3");
  open_fails = false;
  register_fails = λ n. false;
  sync_fails = false;
  remove_fails = false;
  gtid_fails = false;
  reinit_fails = false;
  stat = λ n. present 100;
  delete = λ n. done;
  close_fails = false;
}

abbrev purge : Purge
purge = record { index = four; threads = []; registered = []; deleted = []; freed = 0 }

-- A purge up to the third file takes the two before it.
purge_logs_example : purge_logs keep files (file "b.3") true true false purge ≡ (
  record {
    index = record four { entries = file "b.3" ∷ file "b.4" ∷ [] };
    threads = [];
    registered = [];
    deleted = file "b.1" ∷ file "b.2" ∷ [];
    freed = 200;
  },
  none,
)
unfolding purge_logs find_log_pos find_entry matches same_name purge_from purge_loop busy
    find_next_log conclude_purge remove_logs_from_index purge_index_entry purge_entries purge_entry
    end_of_index
purge_logs_example = refl

found_example : (find_log_pos keep four new_info (some (file "b.3"))).1 ≡ none
unfolding find_log_pos find_entry matches same_name
found_example = refl

purge_logs-Purging_example :
    Purging keep files
      (file "b.3")
      true
      purge
      (purge_logs keep files (file "b.3") true true false purge).0
purge_logs-Purging_example =
    purge_logs-Purging keep files (file "b.3") true true false purge (file "b.1")
      (file "b.2" ∷ file "b.3" ∷ file "b.4" ∷ []) (λ n. refl) refl refl refl refl refl
      (refl, (refl, (refl, (refl, tt)))) found_example

-- The first file is of time 10, the others of time 20.
abbrev modified : LogName → ℕ
modified n = if same_name (file "b.1") n then 10 else 20

-- What is older than 15 goes.
purge_logs_before_date_example : purge_logs_before_date keep files modified 15 false purge ≡ (
  record {
    index = record four { entries = file "b.2" ∷ file "b.3" ∷ file "b.4" ∷ [] };
    threads = [];
    registered = [];
    deleted = file "b.1" ∷ [];
    freed = 100;
  },
  none,
)
unfolding purge_logs_before_date date_loop judge judge_stat purge_logs find_log_pos find_entry
    matches same_name purge_from purge_loop busy find_next_log conclude_purge remove_logs_from_index
    purge_index_entry purge_entries purge_entry end_of_index
purge_logs_before_date_example = refl

purge_logs_before_date-Aged_example :
    AgedPurge files modified 15 keep purge
      (purge_logs_before_date keep files modified 15 false purge).0
purge_logs_before_date-Aged_example =
    purge_logs_before_date-Aged files modified 15 keep false purge (file "b.1")
      (file "b.2" ∷ file "b.3" ∷ file "b.4" ∷ []) (λ n. refl) refl refl refl refl refl
      (refl, (refl, (refl, (refl, tt))))
