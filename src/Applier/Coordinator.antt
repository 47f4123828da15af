-- ===== src/Applier/Coordinator.antt =====
-- What both submodes read and write of the coordinator: the Relay_log_info, its workers, and the
-- queue of assigned groups (the GAQ), whose own code is not in the repository.
use knowledge_base.Base.{ℕ, ℤ, Bool, Option, List}

-- Slave_worker::running_status: the program tells only RUNNING from the rest.
pub data RunningStatus : Type 0 where
  running not_running : RunningStatus

pub record Worker : Type 0 where
  pub id : ℕ
  pub usage_partition : ℕ
  pub jobs_len : ℕ
  pub running_status : RunningStatus

-- A Slave_job_group, as far as the submode writes it.
pub record JobGroup : Type 0 where
  pub sequence_number : ℤ
  pub last_committed : ℤ

pub record Gaq : Type 0 where
  pub size : ℕ
  pub entry : ℕ
  pub assigned_group_index : ℕ
  -- lwm.sequence_number
  pub lwm : ℤ
  -- the group at the assigned index
  pub assigned_group : JobGroup

pub data GroupStatus : Type 0 where
  in_group not_in_group : GroupStatus

pub record Rli : Type 0 where
  -- info_thd->killed
  pub killed : Bool
  -- what sql_slave_killed(info_thd, rli) answers
  pub sql_slave_killed : Bool
  pub gaq : Gaq
  pub workers : List Worker
  pub last_assigned_worker : Option Worker
  pub mts_group_status : GroupStatus
  pub reported_unsafe_warning : Bool
  -- info_thd->variables.option_bits & OPTION_BEGIN
  pub option_begin : Bool
  pub mts_wq_no_underrun_cnt : ℕ
  -- the workers registered with the commit order manager, if there is one
  pub commit_order_manager : Option (List Worker)

-- The events that the submodes tell apart, a GTID event with its two timestamps.
pub data Event : Type 0 where
  gtid_log_event anonymous_gtid_log_event : ℤ → ℤ → Event
  -- with its mts_accessed_dbs
  query_event : ℕ → Event
  other_event : Event
