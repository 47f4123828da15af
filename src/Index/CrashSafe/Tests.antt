-- ===== src/Index/CrashSafe/Tests.antt =====
-- An index of three entries of two bytes, which loses the first.
use knowledge_base.Base.{ℕ, false, some, List, [], ◌∷◌, All, ◌≡◌, refl, arith, ltb}
use knowledge_base.Index.CrashSafe.{Disk, Answers, overwrite, copy_file, remove_logs_from_index}
use knowledge_base.Index.CrashSafe.Recovered.{OldOrNew, at_rest, remove_logs_from_index-OldOrNew}

abbrev old : List ℕ
old = 65 ∷ 10 ∷ 66 ∷ 10 ∷ 67 ∷ 10 ∷ []

-- The first two deletions fail.
abbrev answers : Answers
answers = record {
  open_fails = false;
  copy_fails = false;
  close_fails = false;
  delete_fails = λ n. ltb 2 n;
  rename_fails = λ n. false;
  reopen_fails = false;
}

remove_logs_from_index-OldOrNew_example :
    let r = remove_logs_from_index answers 3 2 (at_rest old) in
    OldOrNew old (66 ∷ 10 ∷ 67 ∷ 10 ∷ []) r.disk
    × All (OldOrNew old (66 ∷ 10 ∷ 67 ∷ 10 ∷ [])) r.before
remove_logs_from_index-OldOrNew_example =
    remove_logs_from_index-OldOrNew answers 3 2 old (omega arith)

removed_example :
    (remove_logs_from_index answers 3 2 (at_rest old)).disk ≡ at_rest (66 ∷ 10 ∷ 67 ∷ 10 ∷ [])
unfolding remove_logs_from_index copy_file overwrite
removed_example = refl

-- A crash-safe file that an earlier crash has left, and that is longer than the new index.
abbrev left_over : Disk
left_over = record { index_file = some old; crash_safe_index_file = some old }

-- Its last entry stands twice in the new index.
left_over_example :
    (remove_logs_from_index answers 3 2 left_over).disk ≡ at_rest (66 ∷ 10 ∷ 67 ∷ 10 ∷ 67 ∷ 10 ∷ [])
unfolding remove_logs_from_index copy_file overwrite
left_over_example = refl
