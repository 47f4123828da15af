-- ===== src/Applier/Tests.antt =====
-- The coordinator of a replica, on small inputs.
use knowledge_base.Base.{
  ℕ, pos, ◌+ℤ◌, ◌≤◌, ◌<◌, true, false, Option, none, some, List, [], ◌∷◌, ◌++◌, All, contains, ◌≡◌,
  ◌⊎◌, refl, inl, arith,
}
use knowledge_base.Tracking.Clock.{seq_uninit}
use knowledge_base.Applier.Coordinator.{
  Worker, running, Rli, Gaq, gtid_log_event, query_event, in_group, not_in_group,
}
use knowledge_base.Applier.LogicalClock
use knowledge_base.Applier.LogicalClock.{
  State, Submode, FindLwm, Wake, Checkpoint, clock_leq, wait_for_workers_to_finish, all_running,
}
use knowledge_base.Applier.LogicalClock.Schedule
use knowledge_base.Applier.LogicalClock.Schedule.{Code, success, cant_parallel, schedule_next_event}
use knowledge_base.Applier.LogicalClock.Choice.{
  Yield, get_least_occupied_worker, get_free_worker, forget_dbs,
}
use knowledge_base.Applier.LogicalClock.Draining.{wait_for_workers_to_finish_sound, SameEvent}
use knowledge_base.Applier.LogicalClock.Scheduling.{
  Drained, flagged, schedule_next_event_serialises,
}
use knowledge_base.Applier.LogicalClock.Progress.{schedule_next_event_returns}
use knowledge_base.Applier.Workers.{Chosen, get_least_occupied_worker-Chosen}
use knowledge_base.Applier.Database
use knowledge_base.Applier.Database.{Partition, Release, Sync, Outcome}
use knowledge_base.Applier.Database.Released.{IsReleased, wait_for_workers_to_finish-IsReleased}
use knowledge_base.Applier.Payload
use knowledge_base.Applier.Payload.{
  Inner, MtsDbNames, names, over_max, unfold_transaction_payload_event,
  set_multi_threaded_applier_context,
}
use knowledge_base.Applier.Payload.Names.{
  Ascends, some_event, touches, isolates, set_multi_threaded_applier_context-exact,
}

abbrev worker : ℕ → ℕ → ℕ → Worker
worker id usage jobs = record {
  id = id;
  usage_partition = usage;
  jobs_len = jobs;
  running_status = running;
}

abbrev gaq : Gaq
gaq = record {
  size = 8;
  entry = 0;
  assigned_group_index = 2;
  lwm = pos 3;
  assigned_group = record { sequence_number = pos 5; last_committed = pos 3 };
}

abbrev rli : Rli
rli = record {
  killed = false;
  sql_slave_killed = false;
  gaq = gaq;
  workers = worker 0 2 1 ∷ worker 1 1 0 ∷ worker 2 1 3 ∷ [];
  last_assigned_worker = none;
  mts_group_status = in_group;
  reported_unsafe_warning = false;
  option_begin = true;
  mts_wq_no_underrun_cnt = 0;
  commit_order_manager = none;
}

-- After the transaction with number 5, with low-water-mark 3 and one job of two done.
abbrev coordinator : State
coordinator = record {
  m = record LogicalClock.init {
    first_event = false;
    sequence_number = pos 5;
    last_committed = pos 3;
    last_lwm_timestamp = pos 3;
    delegated_jobs = 2;
    jobs_done = 1;
  };
  rli = rli;
}

-- A scan that finds nothing.
abbrev find_nothing : FindLwm
find_nothing g from = (g.size, pos 0)

abbrev wakes : List Wake
wakes =
    record { killed = false; is_error = false; lwm = pos 3 }
    ∷ record { killed = false; is_error = false; lwm = pos 4 }
    ∷ []

abbrev rounds : List Checkpoint
rounds = record { fails = false; jobs_done = 2; killed = false; is_error = false; gaq = gaq } ∷ []

-- Number 6 whose parent is 4 waits twice and joins the group.
abbrev joined : State
joined = record coordinator {
  m = record coordinator.m {
    sequence_number = pos 6;
    last_committed = pos 4;
    last_lwm_timestamp = pos 4;
    last_lwm_index = 8;
    delegated_jobs = 3;
    is_new_group = false;
  };
  rli = record rli {
    gaq = record gaq {
      assigned_group = record { sequence_number = pos 6; last_committed = pos 4 };
    };
  };
}

schedule_next_event_returns_example :
    (r : State × Code) × (schedule_next_event find_nothing wakes rounds
        (gtid_log_event (pos 6) (pos 4))
        coordinator
      ≡ some r)
unfolding Schedule.read_timestamps clock_leq
schedule_next_event_returns_example =
    schedule_next_event_returns find_nothing wakes rounds (gtid_log_event (pos 6) (pos 4))
      coordinator refl refl

-- An event with no timestamps waits for the one job that is not done, and starts a group.
abbrev drained : State
drained = record coordinator {
  m = record coordinator.m {
    sequence_number = seq_uninit;
    last_committed = seq_uninit;
    last_lwm_timestamp = seq_uninit;
    delegated_jobs = 1;
    jobs_done = 0;
    is_new_group = true;
  };
  rli = record rli {
    gaq = record gaq { lwm = seq_uninit };
    last_assigned_worker = some (worker 0 2 1);
  };
}

drained_example :
    schedule_next_event find_nothing wakes rounds (query_event 1) coordinator
    ≡ some (drained, success)
unfolding schedule_next_event Schedule.is_inconsistent clock_leq Schedule.read_timestamps
    Schedule.starts_group Schedule.is_gap_successor Schedule.schedule_new_group
    wait_for_workers_to_finish LogicalClock.drain LogicalClock.is_busy LogicalClock.checkpoint
    LogicalClock.finish_waiting all_running ◌+ℤ◌
drained_example = refl

schedule_next_event_serialises_example :
    (drained.m.is_new_group ≡ true) × Drained (flagged (query_event 1) coordinator) drained
unfolding Schedule.read_timestamps
schedule_next_event_serialises_example =
    schedule_next_event_serialises find_nothing wakes rounds (query_event 1) coordinator drained
      refl (inl refl) drained_example

abbrev idle : State
idle = record coordinator {
  m = record coordinator.m { jobs_done = 2 };
  rli = record rli { gaq = record gaq { lwm = seq_uninit }; mts_group_status = not_in_group };
}

idle_example : wait_for_workers_to_finish rounds coordinator ≡ some (idle, true)
unfolding wait_for_workers_to_finish LogicalClock.drain LogicalClock.is_busy LogicalClock.checkpoint
    LogicalClock.finish_waiting all_running
idle_example = refl

wait_for_workers_to_finish_sound_example :
    (2 ≤ 2)
    × (all_running idle.rli.workers ≡ true)
    × (false ≡ false)
    × (seq_uninit ≡ seq_uninit)
    × (not_in_group ≡ not_in_group)
    × SameEvent coordinator idle
wait_for_workers_to_finish_sound_example =
    wait_for_workers_to_finish_sound rounds coordinator idle idle_example

abbrev yields : List Yield
yields =
    record { killed = false; workers = worker 0 2 1 ∷ [] }
    ∷ record { killed = false; workers = worker 0 2 0 ∷ [] }
    ∷ []

abbrev all_busy : Rli
all_busy = record rli { workers = worker 0 2 1 ∷ [] }

get_least_occupied_worker-Chosen_example :
    (r : Rli × Option Worker) × (get_least_occupied_worker yields (query_event 1) all_busy
      ≡ some (r.0, r.1, forget_dbs (query_event 1)))
    × Chosen none r
unfolding get_free_worker
get_least_occupied_worker-Chosen_example =
    get_least_occupied_worker-Chosen yields (query_event 1) all_busy refl

-- Two partitions, the first in use until the second awakening.
abbrev partitions : List Partition
partitions =
    record { worker = worker 0 2 1; usage = 1; temporary_tables = 4 ∷ [] }
    ∷ record { worker = worker 1 1 0; usage = 0; temporary_tables = 5 ∷ [] }
    ∷ []

abbrev start : Sync
start = record {
  tables = 3 ∷ [];
  killed = false;
  ret = 0;
  cant_sync = false;
  wakes = record { usage = 1; killed = false } ∷ record { usage = 0; killed = false } ∷ [];
}

abbrev all_released : Outcome
all_released = record {
  partitions =
      record { worker = worker 0 2 1; usage = 0; temporary_tables = [] }
      ∷ record { worker = worker 1 1 0; usage = 0; temporary_tables = [] }
      ∷ [];
  sync = record { tables = 3 ∷ 4 ∷ 5 ∷ []; killed = false; ret = 1; cant_sync = false; wakes = [] };
  mts_group_status = not_in_group;
  result = some 1;
}

abbrev move : List ℕ → List ℕ → List ℕ
move xs ys = xs ++ ys

all_released_example :
    Database.wait_for_workers_to_finish move none partitions in_group start ≡ some all_released
unfolding Database.wait_for_workers_to_finish Database.visit_all Database.visit
    Database.await_release Database.settle Database.is_ignored Database.is_running
all_released_example = refl

wait_for_workers_to_finish-IsReleased_example :
    All IsReleased all_released.partitions
    × (all_released.sync.tables ≡ move (move (3 ∷ []) (4 ∷ [])) (5 ∷ []))
    × (not_in_group ≡ not_in_group)
    × ((all_released.result ≡ none)
        ⊎ All (λ p. Database.is_running p.worker ≡ true) all_released.partitions)
wait_for_workers_to_finish-IsReleased_example =
    wait_for_workers_to_finish-IsReleased move partitions in_group start all_released
      all_released_example refl

abbrev inner : List ℕ → Inner
inner dbs = record {
  contains_partition_info = true;
  is_query_event = false;
  is_xa_commit = false;
  is_xa_rollback = false;
  mts_dbs = names dbs;
}

-- Two events, on the databases 5 and 2, and 5.
abbrev payload : List (Option Inner)
payload = some (inner (5 ∷ 2 ∷ [])) ∷ some (inner (5 ∷ [])) ∷ []

set_multi_threaded_applier_context-exact_example :
    let events = (unfold_transaction_payload_event payload).0 in
    (some_event isolates events ≡ false)
    × Ascends (2 ∷ 5 ∷ [])
    × (2 < 16)
    × ((j : ℕ) → contains j (2 ∷ 5 ∷ []) ≡ some_event (touches j) events)
unfolding set_multi_threaded_applier_context Payload.payload_dbs Payload.add_events
    unfold_transaction_payload_event Payload.add_event Payload.add_dbs Payload.add_names
    Payload.insert_db
set_multi_threaded_applier_context-exact_example =
    set_multi_threaded_applier_context-exact 16 payload (2 ∷ 5 ∷ []) (omega arith) refl
