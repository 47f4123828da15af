-- ===== src/Tracking/Writeset.antt =====
-- Writeset_trx_dependency_tracker: who last wrote each row, by the hash of the row.
pub mod Loop
pub mod Soundness
use knowledge_base.Base.{
  ℕ, ℤ, pos, ◌+◌, ltb, ◌==◌, ltb_ℤ, min_ℤ, Bool, true, false, not, ◌&&◌, ◌||◌, Option, none, some,
  List, [], ◌∷◌, length, find, insert, if◌then◌else◌,
}
use knowledge_base.Tracking.Thd.{Thd}
use knowledge_base.Tracking.CommitOrder.{Dependency}

pub record WritesetTracker : Type 0 where
  pub opt_max_history_size : ℕ
  pub history_start : ℤ
  pub history : List (ℕ × ℤ)

unfoldable pub init : ℕ → WritesetTracker
init max_history_size = record {
  opt_max_history_size = max_history_size;
  history_start = pos 0;
  history = [];
}

-- `extraction` is the global transaction_write_set_extraction.
unfoldable pub can_use_writesets : ℕ → Thd → Bool
can_use_writesets extraction thd =
    (not (length thd.write_set == 0) || thd.has_missing_keys || thd.is_empty_transaction)
    && extraction == thd.write_set_extraction
    && not thd.has_related_foreign_keys
    && not thd.write_set_limit_reached

-- The state of the loop over the write set.
pub record Scan : Type 0 where
  pub last_parent : ℤ
  pub history : List (ℕ × ℤ)

-- One round of the loop, for the row hash `row`.
unfoldable pub visit : Bool → ℤ → ℕ → Scan → Scan
visit exceeds_capacity sequence_number row s = elim (find row s.history) [
  | some writer ↦ record {
    last_parent =
        if ltb_ℤ s.last_parent writer && ltb_ℤ writer sequence_number
        then writer
        else s.last_parent;
    history = insert row sequence_number s.history;
  }
  | none ↦ record s {
    history = if not exceeds_capacity then insert row sequence_number s.history else s.history;
  }
]

unfoldable pub scan : Bool → ℤ → List ℕ → Scan → Scan
scan exceeds_capacity sequence_number [] s = s
scan exceeds_capacity sequence_number (row ∷ rows) s =
    scan exceeds_capacity sequence_number rows (visit exceeds_capacity sequence_number row s)

unfoldable pub get_dependency :
    ℕ → WritesetTracker → Thd → Dependency → WritesetTracker × Dependency
get_dependency extraction t thd d =
    let usable = can_use_writesets extraction thd in
    let exceeds_capacity =
      usable && ltb t.opt_max_history_size (length t.history + length thd.write_set) in
    let start : Scan = record { last_parent = t.history_start; history = t.history } in
    let s = if usable then scan exceeds_capacity d.sequence_number thd.write_set start else start in
    let parent =
      if usable && not thd.has_missing_keys
      then min_ℤ s.last_parent d.commit_parent
      else d.commit_parent in
    (
      (if exceeds_capacity || not usable
          then record t { history_start = d.sequence_number; history = [] }
          else record t { history = s.history }),
      record d { commit_parent = parent },
    )

unfoldable pub rotate : WritesetTracker → ℤ → WritesetTracker
rotate t start = record t { history_start = start; history = [] }
