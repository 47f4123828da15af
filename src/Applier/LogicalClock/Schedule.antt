-- ===== src/Applier/LogicalClock/Schedule.antt =====
-- Mts_submode_logical_clock::schedule_next_event: whether the next transaction may start.
use mathlib.Core.Option
use mathlib.Core.List.{head?}
use knowledge_base.Base.{
  ◌+◌, ◌%◌, ◌^◌, ◌==◌, ℤ, pos, ◌+ℤ◌, ◌-ℤ◌, ltb_ℤ, eqb_ℤ, Bool, true, false, not, ◌&&◌, ◌||◌, Option,
  some, List, if◌then◌else◌,
}
use knowledge_base.Tracking.Clock.{seq_uninit}
use knowledge_base.Applier.Coordinator.{
  in_group, Event, gtid_log_event, anonymous_gtid_log_event, query_event, other_event,
}
use knowledge_base.Applier.LogicalClock.{
  State, Submode, FindLwm, Wake, Checkpoint, clock_leq, estimate_lwm_timestamp,
  wait_for_last_committed_trx, wait_for_workers_to_finish,
}

-- What schedule_next_event returns: 0, ER_MTS_CANT_PARALLEL, ER_MTS_INCONSISTENT_DATA or -1.
pub data Code : Type 0 where
  success cant_parallel inconsistent_data aborted : Code

-- The switch on the event's type: the timestamps of a GTID event, also written to the group.
unfoldable pub read_timestamps : Event → State → State
read_timestamps (gtid_log_event number parent) s = record s {
  m = record s.m { sequence_number = number; last_committed = parent };
  rli = record s.rli {
    gaq = record s.rli.gaq {
      assigned_group = record { sequence_number = number; last_committed = parent };
    };
  };
}
read_timestamps (anonymous_gtid_log_event number parent) s = record s {
  m = record s.m { sequence_number = number; last_committed = parent };
  rli = record s.rli {
    gaq = record s.rli.gaq {
      assigned_group = record { sequence_number = number; last_committed = parent };
    };
  };
}
read_timestamps (query_event dbs) s = record s {
  m = record s.m { sequence_number = seq_uninit; last_committed = seq_uninit };
}
read_timestamps other_event s = record s {
  m = record s.m { sequence_number = seq_uninit; last_committed = seq_uninit };
}

-- The two tests on the timestamps of an event that is not the first.
unfoldable pub is_inconsistent : ℤ → Submode → Bool
is_inconsistent last_sequence_number m =
    (clock_leq m.sequence_number m.last_committed && not (eqb_ℤ m.last_committed seq_uninit))
    || (clock_leq m.sequence_number last_sequence_number
        && not (eqb_ℤ m.sequence_number seq_uninit))

unfoldable pub is_gap_successor : Bool → ℤ → Submode → Bool
is_gap_successor first last_sequence_number m =
    not first && ltb_ℤ (last_sequence_number +ℤ pos 1) m.sequence_number

-- The value given to is_new_group; `first_event` has been set to false before.
unfoldable pub starts_group : Bool → ℤ → Submode → Bool
starts_group gap_successor last_sequence_number m =
    m.first_event
    || m.force_new_group
    || eqb_ℤ m.sequence_number seq_uninit
    || eqb_ℤ m.last_committed seq_uninit
    || gap_successor
    || eqb_ℤ last_sequence_number seq_uninit

-- The branch that waits for the commit parent alone.
unfoldable pub schedule_in_group : FindLwm → List Wake → Bool → State → Option (State × Code)
schedule_in_group find_lwm wakes gap_successor s =
    let parent = s.m.last_committed in
    let delegated = λ (t : State). record t {
      m = record t.m { delegated_jobs = (t.m.delegated_jobs + 1) % 2 ^ 32 };
    } in
    let satisfied = λ (t : State).
      if gap_successor
      then record t { m = record t.m { last_lwm_timestamp = t.m.sequence_number -ℤ pos 1 } }
      else t in
    if not (clock_leq parent (estimate_lwm_timestamp s))
      && not (s.rli.gaq.assigned_group_index == s.rli.gaq.entry)
    then Option.map
        (λ (r : State × Bool).
          if r.1
          then (record r.0 { rli = record r.0.rli { reported_unsafe_warning = true } }, aborted)
          else (delegated (satisfied r.0), success))
        (wait_for_last_committed_trx find_lwm wakes parent s)
    else some (delegated s, success)

-- The branch that waits for all workers.
unfoldable pub schedule_new_group : List Checkpoint → State → Option (State × Code)
schedule_new_group rounds s =
    Option.map
      (λ (r : State × Bool).
        if r.1
        then (
          record r.0 {
            m = record r.0.m {
              last_lwm_timestamp = seq_uninit;
              delegated_jobs = 1;
              jobs_done = 0;
              force_new_group = false;
            };
            rli = record r.0.rli {
              gaq = record r.0.rli.gaq { lwm = seq_uninit };
              mts_group_status = in_group;
              last_assigned_worker =
                  if eqb_ℤ r.0.m.sequence_number seq_uninit && eqb_ℤ r.0.m.last_committed seq_uninit
                  then head? r.0.rli.workers
                  else r.0.rli.last_assigned_worker;
            };
          },
          success,
        )
        else (r.0, inconsistent_data))
      (wait_for_workers_to_finish rounds s)

unfoldable pub schedule_next_event :
    FindLwm → List Wake → List Checkpoint → Event → State → Option (State × Code)
schedule_next_event find_lwm wakes rounds ev s =
    let last = s.m.sequence_number in
    let first = s.m.first_event in
    let read = read_timestamps ev s in
    let s₁ = record read { m = record read.m { first_event = false } } in
    let gap = is_gap_successor first last s₁.m in
    let new_group = starts_group gap last s₁.m in
    let s₂ = record s₁ { m = record s₁.m { is_new_group = new_group } } in
    if s.rli.sql_slave_killed
    then some (s, success)
    else if not first && is_inconsistent last s₁.m
    then some (s₁, cant_parallel)
    else if new_group
    then schedule_new_group rounds s₂
    else schedule_in_group find_lwm wakes gap s₂
