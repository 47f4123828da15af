-- ===== src/Replication/Tests.antt =====
-- The first transaction of a primary, and a replica that has just started.
use knowledge_base.Base.{pos, int_laws, false, none, some, [], ◌≢◌}
use knowledge_base.Tracking.Thd.{Thd, other, is_trx_unsafe_for_parallel_slave}
use knowledge_base.Tracking.Clock
use knowledge_base.Tracking.CommitOrder
use knowledge_base.Tracking.Tracker
use knowledge_base.Tracking.Tracker.Invariant.{starts}
use knowledge_base.Applier.Coordinator.{in_group}
use knowledge_base.Applier.LogicalClock
use knowledge_base.Applier.LogicalClock.{State, FindLwm}
use knowledge_base.Applier.LogicalClock.Schedule.{cant_parallel, schedule_next_event}
use knowledge_base.Replication.{logged, logged_accepted}

abbrev first : Thd
first = record {
  sequence_number = pos 0;
  last_committed = pos 0;
  sql_command = other 0;
  alter_admin_partition = false;
  write_set = [];
  has_missing_keys = false;
  has_related_foreign_keys = false;
  write_set_limit_reached = false;
  is_empty_transaction = false;
  write_set_extraction = 2;
  last_session_sequence_number = pos 0;
}

abbrev fresh : State
fresh = record {
  m = LogicalClock.init;
  rli = record {
    killed = false;
    sql_slave_killed = false;
    gaq = record {
      size = 8;
      entry = 0;
      assigned_group_index = 0;
      lwm = pos 0;
      assigned_group = record { sequence_number = pos 0; last_committed = pos 0 };
    };
    workers = [];
    last_assigned_worker = none;
    mts_group_status = in_group;
    reported_unsafe_warning = false;
    option_begin = false;
    mts_wq_no_underrun_cnt = 0;
    commit_order_manager = none;
  };
}

abbrev find_nothing : FindLwm
find_nothing gaq from = (gaq.size, pos 0)

logged_accepted_example :
    schedule_next_event find_nothing [] [] (logged 2 Tracker.init first) fresh
    ≢ some (fresh, cant_parallel)
unfolding Tracker.init Tracker.get_dependency Tracker.by_commit_order Tracker.step
    CommitOrder.get_dependency CommitOrder.step Clock.step is_trx_unsafe_for_parallel_slave
logged_accepted_example =
    logged_accepted 2 Tracker.init first find_nothing [] [] fresh fresh starts (omega int_laws)
      (omega int_laws)
