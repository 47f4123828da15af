-- ===== src/Applier/LogicalClock/Progress.antt =====
-- Mts_submode_logical_clock::schedule_next_event: which timestamps it refuses, and its return.
use mathlib.Core.Option
use knowledge_base.Base.{
  ◌==◌, ℤ, pos, ◌<ℤ◌, ◌≡◌, refl, ◌≢◌, Bool, true, not, ◌&&◌, Option, some, List, Bool-cases, inl,
  inr, arith,
}
use knowledge_base.Tracking.Clock.{seq_uninit}
use knowledge_base.Applier.Coordinator.{Event, gtid_log_event}
use knowledge_base.Applier.LogicalClock.{
  State, FindLwm, Wake, Checkpoint, clock_leq, wait_for_workers_to_finish,
}
use knowledge_base.Applier.LogicalClock.Schedule.{
  Code, success, cant_parallel, read_timestamps, is_inconsistent, schedule_in_group,
  schedule_new_group, schedule_next_event,
}
use knowledge_base.Applier.LogicalClock.Waiting.{some_ends, wait_for_last_committed_trx_returns}
use knowledge_base.Applier.LogicalClock.Draining.{some_settles, wait_for_workers_to_finish_returns}
use knowledge_base.Applier.LogicalClock.Scheduling.{
  schedule_cases, entered, gap, flagged, within-numbers,
}

ordered-consistent :
    (number parent : ℤ) (s : State)
    → is_inconsistent s.m.sequence_number (entered (gtid_log_event number parent) s).m ≡ true
    → pos 0 <ℤ number
    → parent <ℤ number
    → s.m.sequence_number <ℤ number
    → ⊥
unfolding is_inconsistent clock_leq read_timestamps
ordered-consistent number parent s i p q l = ground arith

new_group-allowed :
    (rounds : List Checkpoint) (s t : State) → schedule_new_group rounds s ≢ some (t, cant_parallel)
unfolding schedule_new_group
new_group-allowed rounds s t = ground arith

in_group-allowed :
    (find_lwm : FindLwm) (wakes : List Wake) (g : Bool) (s t : State)
    → schedule_in_group find_lwm wakes g s ≢ some (t, cant_parallel)
unfolding schedule_in_group
in_group-allowed find_lwm wakes g s t = ground arith

-- Events whose timestamps are ordered are never refused: a GTID event with a positive number above
-- its parent's and above the last one's number.
pub schedule_next_event_accepts :
    (find_lwm : FindLwm) (wakes : List Wake) (rounds : List Checkpoint) (number parent : ℤ)
    (s t : State)
    → pos 0 <ℤ number
    → parent <ℤ number
    → s.m.sequence_number <ℤ number
    → schedule_next_event find_lwm wakes rounds (gtid_log_event number parent) s
      ≢ some (t, cant_parallel)
schedule_next_event_accepts find_lwm wakes rounds number parent s t p q l =
    schedule_cases (λ r. r ≢ some (t, cant_parallel)) find_lwm wakes rounds
      (gtid_log_event number parent) s (λ _ h. cc)
      (λ _ i h. absurd (ordered-consistent number parent s i p q l))
      (λ _ h. new_group-allowed rounds _ t h) λ _ h. in_group-allowed find_lwm wakes _ _ t h

map_returns :
    {A B : Type 0} (f : A → B) (o : Option A)
    → (a : A) × (o ≡ some a)
    → (b : B) × (Option.map f o ≡ some b)
map_returns f o (a, e) = (f a, rw e)

new_group_returns :
    (rounds : List Checkpoint) (s : State)
    → some_settles s.m.delegated_jobs rounds ≡ true
    → (r : State × Code) × (schedule_new_group rounds s ≡ some r)
unfolding schedule_new_group
new_group_returns rounds s h =
    map_returns _ (wait_for_workers_to_finish rounds s)
      (wait_for_workers_to_finish_returns rounds s h)

in_group_returns :
    (find_lwm : FindLwm) (wakes : List Wake) (g : Bool) (s : State)
    → s.m.last_committed ≢ seq_uninit
    → some_ends s.m.last_committed wakes ≡ true
    → (r : State × Code) × (schedule_in_group find_lwm wakes g s ≡ some r)
unfolding schedule_in_group
in_group_returns find_lwm wakes g s ne h =
    let w = wait_for_last_committed_trx_returns find_lwm wakes s.m.last_committed s ne h in
    elim (Bool-cases (
      not (clock_leq s.m.last_committed s.m.last_lwm_timestamp)
      && not (s.rli.gaq.assigned_group_index == s.rli.gaq.entry))) [
        | inl behind ↦ rw behind (map_returns _ _ ((w.0, w.1), w.2))
        | inr ready ↦ rw ready (_, refl)
      ]

-- If some awakening finds the parent of the event committed, the
-- coordinator killed or an error, and some checkpoint settles the jobs delegated so far, then
-- schedule_next_event returns, whichever wait it takes.
pub schedule_next_event_returns :
    (find_lwm : FindLwm) (wakes : List Wake) (rounds : List Checkpoint) (ev : Event) (s : State)
    → some_ends (flagged ev s).m.last_committed wakes ≡ true
    → some_settles (flagged ev s).m.delegated_jobs rounds ≡ true
    → (r : State × Code) × (schedule_next_event find_lwm wakes rounds ev s ≡ some r)
schedule_next_event_returns find_lwm wakes rounds ev s ends settles =
    schedule_cases (λ o. (r : State × Code) × (o ≡ some r)) find_lwm wakes rounds ev s
      (λ _. ((s, success), refl)) (λ _ _. ((entered ev s, cant_parallel), refl))
      (λ _. new_group_returns rounds (flagged ev s) settles)
      λ n. in_group_returns find_lwm wakes (gap ev s) (flagged ev s) (within-numbers ev s n).1 ends
