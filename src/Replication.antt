-- ===== src/Replication.antt =====
-- The two ends together: what the trackers of the primary log (提交/rpl_trx_tracking.cc) is what the
-- scheduler of the replica reads (复制/rpl_mts_submode.cc).
mod Tests
use knowledge_base.Base.{ℕ, ◌≤ℤ◌, ◌<ℤ◌, ◌≢◌, some, List}
use knowledge_base.Tracking.Thd.{Thd}
use knowledge_base.Tracking.Tracker.{Tracker, get_dependency, step}
use knowledge_base.Tracking.Tracker.Invariant.{Reach, numbered, get_dependency-lt}
use knowledge_base.Applier.Coordinator.{Event, gtid_log_event}
use knowledge_base.Applier.LogicalClock.{State, FindLwm, Wake, Checkpoint}
use knowledge_base.Applier.LogicalClock.Schedule.{cant_parallel, schedule_next_event}
use knowledge_base.Applier.LogicalClock.Progress.{schedule_next_event_accepts}

-- The GTID event of a transaction that a primary numbers and flushes.
abbrev pub logged : ℕ → Tracker → Thd → Event
logged extraction t thd =
    let d = (get_dependency extraction (step t).0 (numbered t thd)).2 in
    gtid_log_event d.sequence_number d.commit_parent

-- Whatever has happened on the primary and whatever its mode: the timestamps of a transaction that it
-- numbers and flushes are never refused by a replica whose last transaction has a lower number.
pub logged_accepted :
    (extraction : ℕ) (t : Tracker) (thd : Thd) (find_lwm : FindLwm) (wakes : List Wake)
    (rounds : List Checkpoint) (s u : State)
    → Reach t
    → thd.last_committed ≤ℤ t.m_commit_order.transaction_counter.state
    → s.m.sequence_number
      <ℤ (get_dependency extraction (step t).0 (numbered t thd)).2.sequence_number
    → schedule_next_event find_lwm wakes rounds (logged extraction t thd) s
      ≢ some (u, cant_parallel)
logged_accepted extraction t thd find_lwm wakes rounds s u r h last =
    let d = (get_dependency extraction (step t).0 (numbered t thd)).2 in
    let (positive, below) = get_dependency-lt extraction t thd r h in
    schedule_next_event_accepts find_lwm wakes rounds d.sequence_number d.commit_parent s u positive
      below last
