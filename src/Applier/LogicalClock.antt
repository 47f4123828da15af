-- ===== src/Applier/LogicalClock.antt =====
-- Mts_submode_logical_clock. The coordinator waits for the workers in three loops. What it sees at
-- each round is an argument, a list with an entry for each awakening: `none` means that it waits on.
pub mod Schedule
pub mod Choice
pub mod Waiting
pub mod Draining
pub mod Scheduling
pub mod Progress
use mathlib.Core.Option
use mathlib.Core.List.{head?}
use knowledge_base.Base.{
  ℕ, ◌+◌, ◌%◌, ◌^◌, ltb, ◌==◌, ℤ, pos, ◌+ℤ◌, ◌-ℤ◌, ltb_ℤ, leb_ℤ, eqb_ℤ, Bool, true, false, not,
  ◌&&◌, ◌||◌, Option, none, some, List, [], ◌∷◌, if◌then◌else◌,
}
use knowledge_base.Tracking.Clock.{seq_uninit}
use knowledge_base.Applier.Coordinator.{
  RunningStatus, running, not_running, Worker, JobGroup, Gaq, GroupStatus, in_group, not_in_group,
  Rli, Event, gtid_log_event, anonymous_gtid_log_event, query_event, other_event,
}

pub record Submode : Type 0 where
  pub first_event : Bool
  pub force_new_group : Bool
  pub is_new_group : Bool
  pub delegated_jobs : ℕ
  pub last_lwm_timestamp : ℤ
  pub last_lwm_index : ℕ
  pub last_committed : ℤ
  pub sequence_number : ℤ
  pub jobs_done : ℕ
  pub is_error : Bool
  pub min_waited_timestamp : ℤ

-- (ulong)-1
abbrev pub index_undef : ℕ
index_undef = 18446744073709551615

abbrev pub init : Submode
init = record {
  first_event = true;
  force_new_group = false;
  is_new_group = true;
  delegated_jobs = 0;
  last_lwm_timestamp = seq_uninit;
  last_lwm_index = index_undef;
  last_committed = seq_uninit;
  sequence_number = seq_uninit;
  jobs_done = 0;
  is_error = false;
  min_waited_timestamp = seq_uninit;
}

-- The submode and the coordinator that it runs for.
pub record State : Type 0 where
  pub m : Submode
  pub rli : Rli

unfoldable pub start_new_group : Submode → Submode
start_new_group m = record m { force_new_group = true; first_event = true }

-- uint arithmetic wraps.
unfoldable pub withdraw_delegated_job : Submode → Submode
withdraw_delegated_job m = record m { delegated_jobs = (m.delegated_jobs + 4294967295) % 2 ^ 32 }

unfoldable pub clock_leq : ℤ → ℤ → Bool
clock_leq a b = if eqb_ℤ a seq_uninit then true else if eqb_ℤ b seq_uninit then false else leb_ℤ a b

-- Slave_committed_queue::find_lwm, which is not in the repository: the index where its scan from the
-- given index stops, the queue's size if it finds none, and the timestamp of the group there.
abbrev pub FindLwm : Type 0
FindLwm = Gaq → ℕ → ℕ × ℤ

unfoldable pub is_stale : State → Bool
is_stale s = not (eqb_ℤ s.rli.gaq.lwm seq_uninit) && clock_leq s.m.last_lwm_timestamp s.rli.gaq.lwm

unfoldable pub get_lwm_timestamp : FindLwm → State → State
get_lwm_timestamp find_lwm s =
    let gaq = s.rli.gaq in
    let from = if eqb_ℤ gaq.lwm seq_uninit || is_stale s then gaq.entry else s.m.last_lwm_index in
    let (index, timestamp) = find_lwm gaq from in
    let last =
      if not (index == gaq.size)
      then timestamp
      else if is_stale s
      then gaq.lwm
      else s.m.last_lwm_timestamp in
    record s { m = record s.m { last_lwm_index = index; last_lwm_timestamp = last } }

abbrev pub estimate_lwm_timestamp : State → ℤ
estimate_lwm_timestamp s = s.m.last_lwm_timestamp

-- What the coordinator finds when it is awakened from its wait for a commit parent.
pub record Wake : Type 0 where
  pub killed : Bool
  pub is_error : Bool
  pub lwm : ℤ

unfoldable pub wake : Wake → State → State
wake w s = record s {
  m = record s.m { is_error = w.is_error; last_lwm_timestamp = w.lwm };
  rli = record s.rli { killed = w.killed };
}

-- The condition to go on waiting: neither killed nor failed, and the parent is not committed.
unfoldable pub must_wait : ℤ → State → Bool
must_wait last_committed s =
    (not s.rli.killed && not s.m.is_error)
    && not (clock_leq last_committed (estimate_lwm_timestamp s))

-- The do-while loop on logical_clock_cond.
unfoldable pub await : ℤ → List Wake → State → Option State
await last_committed [] s = none
await last_committed (w ∷ ws) s =
    let s' = wake w s in
    let rest = await last_committed ws s' in if must_wait last_committed s' then rest else some s'

abbrev pub reset_waited : State → State
reset_waited s = record s { m = record s.m { min_waited_timestamp = seq_uninit } }

-- The improved estimate, then the wait if the parent is still not committed.
unfoldable pub listen : FindLwm → List Wake → ℤ → State → Option State
listen find_lwm wakes last_committed s =
    let s' = if not s.rli.killed && not s.m.is_error then get_lwm_timestamp find_lwm s else s in
    if must_wait last_committed s' then await last_committed wakes s' else some s'

-- The new state, and whether the wait failed.
unfoldable pub wait_for_last_committed_trx : FindLwm → List Wake → ℤ → State → Option (State × Bool)
wait_for_last_committed_trx find_lwm wakes last_committed s =
    let waiting = record s { m = record s.m { min_waited_timestamp = last_committed } } in
    if eqb_ℤ last_committed seq_uninit
    then some (s, false)
    else Option.map (λ (t : State). (reset_waited t, t.rli.killed || t.m.is_error))
        (listen find_lwm wakes last_committed waiting)

-- One call of mts_checkpoint_routine, which is not in the repository: whether it fails, and what
-- the coordinator finds after it.
pub record Checkpoint : Type 0 where
  pub fails : Bool
  pub jobs_done : ℕ
  pub killed : Bool
  pub is_error : Bool
  pub gaq : Gaq

unfoldable pub checkpoint : Checkpoint → State → State
checkpoint c s = record s {
  m = record s.m { jobs_done = c.jobs_done; is_error = c.is_error };
  rli = record s.rli { killed = c.killed; gaq = c.gaq };
}

unfoldable pub is_busy : State → Bool
is_busy s = ltb s.m.jobs_done s.m.delegated_jobs && not s.rli.killed && not s.m.is_error

-- The loop of wait_for_workers_to_finish; the Boolean is that of a checkpoint that fails.
unfoldable pub drain : List Checkpoint → State → Option (State × Bool)
drain [] s = if is_busy s then none else some (s, false)
drain (c ∷ cs) s =
    let rest = drain cs (checkpoint c s) in
    if not (is_busy s)
    then some (s, false)
    else if c.fails
    then some (checkpoint c s, true)
    else rest

unfoldable pub all_running : List Worker → Bool
all_running [] = true
all_running (w ∷ ws) = elim w.running_status [ running ↦ all_running ws | not_running ↦ false ]

-- After the loop: the state, and whether the result is 0.
unfoldable pub finish_waiting : State → State × Bool
finish_waiting s =
    if all_running s.rli.workers
    then (
      record s {
        rli = record s.rli {
          gaq = record s.rli.gaq { lwm = seq_uninit };
          mts_group_status = not_in_group;
        };
      },
      not s.rli.killed && not s.m.is_error,
    )
    else (s, false)

unfoldable pub wait_for_workers_to_finish : List Checkpoint → State → Option (State × Bool)
wait_for_workers_to_finish rounds s =
    Option.map (λ (r : State × Bool). if r.1 then (r.0, false) else finish_waiting r.0)
      (drain rounds s)
