-- ===== src/Tracking/Tests.antt =====
-- The trackers of a primary, on small inputs.
use knowledge_base.Base.{
  ℕ, ℤ, pos, ◌+ℤ◌, ◌≤ℤ◌, min_ℤ, false, List, [], ◌∷◌, ◌≡◌, refl, find, insert, contains, ◌<ℤ◌, ◌⊎◌,
  int_laws, arith,
}
use knowledge_base.Tracking.Thd.{Thd, SqlCommand, other, drop_db, is_trx_unsafe_for_parallel_slave}
use knowledge_base.Tracking.Clock
use knowledge_base.Tracking.Clock.{LogicalClock, seq_uninit}
use knowledge_base.Tracking.CommitOrder
use knowledge_base.Tracking.CommitOrder.{CommitOrder, Dependency}
use knowledge_base.Tracking.CommitOrder.Bounds.{
  IsValid, update_max_committed-IsValid, get_dependency_blocks,
}
use knowledge_base.Tracking.Tracker
use knowledge_base.Tracking.Tracker.{Tracker, writeset_session}
use knowledge_base.Tracking.Tracker.Invariant.{
  Reach, starts, goes, flushes, numbered, Inv, Reach-Inv, get_dependency-lt, session_respected,
}
use knowledge_base.Tracking.Writeset
use knowledge_base.Tracking.Writeset.{WritesetTracker}
use knowledge_base.Tracking.Writeset.Soundness.{Flushed, parent, run, after, conflict_respected}

-- A session whose transaction wrote the given rows.
abbrev writes : SqlCommand → List ℕ → ℤ → ℤ → Thd
writes command rows number last = record {
  sequence_number = number;
  last_committed = last;
  sql_command = command;
  alter_admin_partition = false;
  write_set = rows;
  has_missing_keys = false;
  has_related_foreign_keys = false;
  write_set_limit_reached = false;
  is_empty_transaction = false;
  write_set_extraction = 2;
  last_session_sequence_number = pos 1;
}

abbrev flushed : List ℕ → ℤ → ℤ → Flushed
flushed rows number last =
    (writes (other 0) rows number last, record { sequence_number = number; commit_parent = last })

abbrev small_history : WritesetTracker
small_history = Writeset.init 3

-- Rows 7 and 8, then row 9, then rows 8 and 5: the last depends on the first.
parent_example :
    parent 2
      (run 2
        (after 2 small_history (flushed (7 ∷ 8 ∷ []) (pos 1) (pos 0)))
        (flushed (9 ∷ []) (pos 2) (pos 1) ∷ []))
      (flushed (8 ∷ 5 ∷ []) (pos 3) (pos 2))
    ≡ pos 1
unfolding Writeset.get_dependency Writeset.init Writeset.can_use_writesets Writeset.scan
    Writeset.visit find insert run min_ℤ
parent_example = refl

conflict_respected_example :
    min_ℤ (pos 1) (pos 2)
    ≤ℤ parent 2
        (run 2
          (after 2 small_history (flushed (7 ∷ 8 ∷ []) (pos 1) (pos 0)))
          (flushed (9 ∷ []) (pos 2) (pos 1) ∷ []))
        (flushed (8 ∷ 5 ∷ []) (pos 3) (pos 2))
unfolding contains
conflict_respected_example =
    conflict_respected 2 small_history (flushed (7 ∷ 8 ∷ []) (pos 1) (pos 0))
      (flushed (8 ∷ 5 ∷ []) (pos 3) (pos 2)) (flushed (9 ∷ []) (pos 2) (pos 1) ∷ []) 8 refl refl
      (omega arith, omega arith)

abbrev seen : Writeset.Scan
seen = record { last_parent = pos 1; history = (7, pos 3) ∷ (8, pos 5) ∷ [] }

-- Another thread moves the clock by one before every attempt.
abbrev busy : ℕ → ℤ → ℤ
busy f s = s +ℤ pos 1

abbrev clock : LogicalClock
clock = record { state = pos 4; offset = pos 2 }

-- Two transactions of a binary log that begins after number 2, the second in progress.
abbrev order : CommitOrder
order = record {
  max_committed_transaction = clock;
  transaction_counter = record { state = pos 6; offset = pos 2 };
  last_blocking_transaction = pos 3;
}

order-IsValid : IsValid order
order-IsValid = ground arith

get_dependency_blocks_example :
    let (u, d) = CommitOrder.get_dependency order (writes drop_db [] (pos 6) (pos 4)) in
    let p =
      (CommitOrder.get_dependency
        (CommitOrder.Bounds.run u (writes (other 0) [] (pos 7) (pos 4) ∷ []))
        (writes (other 0) [] (pos 8) (pos 4))).1.commit_parent in
    (p ≡ seq_uninit) ⊎ (d.sequence_number ≤ℤ p)
unfolding is_trx_unsafe_for_parallel_slave
get_dependency_blocks_example =
    get_dependency_blocks order (writes drop_db [] (pos 6) (pos 4))
      (writes (other 0) [] (pos 8) (pos 4)) (writes (other 0) [] (pos 7) (pos 4) ∷ []) refl
      (omega int_laws, tt)

abbrev first : Thd
first = writes (other 0) (7 ∷ []) (pos 0) (pos 0)

-- The tracker after one transaction.
abbrev one_flushed : Tracker
one_flushed =
    (Tracker.get_dependency 2 (Tracker.step Tracker.init).0 (numbered Tracker.init first)).0

one_flushed-Reach : Reach one_flushed
unfolding Tracker.init
one_flushed-Reach = goes starts (flushes 2 Tracker.init first (omega int_laws))

Reach-Inv_example : Inv one_flushed
Reach-Inv_example = Reach-Inv one_flushed-Reach

get_dependency-lt_example :
    let d =
      (Tracker.get_dependency 2 (Tracker.step one_flushed).0 (numbered one_flushed first)).2 in
    (pos 0 <ℤ d.sequence_number) × (d.commit_parent <ℤ d.sequence_number)
unfolding Tracker.init Tracker.get_dependency Tracker.by_commit_order Tracker.step
    CommitOrder.get_dependency CommitOrder.step Clock.step is_trx_unsafe_for_parallel_slave
get_dependency-lt_example = get_dependency-lt 2 one_flushed first one_flushed-Reach (omega int_laws)

abbrev by_session : Tracker
by_session = record Tracker.init { opt_tracking_mode = writeset_session; m_commit_order = order }

session_respected_example :
    let r = Tracker.get_dependency 2 by_session (writes (other 0) (7 ∷ []) (pos 6) (pos 4)) in
    (r.1.last_session_sequence_number ≡ r.2.sequence_number)
    × ((pos 1 ≡ pos 0) ⊎ (r.2.sequence_number ≤ℤ pos 1) ⊎ (pos 1 ≤ℤ r.2.commit_parent))
session_respected_example =
    session_respected 2 by_session (writes (other 0) (7 ∷ []) (pos 6) (pos 4)) refl
