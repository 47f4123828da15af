-- ===== src/Tracking/Thd.antt =====
-- What the trackers read of a session (THD): its transaction context, its write set, its command.
use knowledge_base.Base.{ℕ, ℤ, Bool, true, false, List}

-- The commands that is_trx_unsafe_for_parallel_slave names; `other` is any further SQLCOM value.
pub data SqlCommand : Type 0 where
  analyze repair optimize create_db alter_db drop_db alter_table : SqlCommand
  other : ℕ → SqlCommand

pub record Thd : Type 0 where
  pub sequence_number : ℤ
  pub last_committed : ℤ
  pub sql_command : SqlCommand
  -- alter_info->flags & Alter_info::ALTER_ADMIN_PARTITION
  pub alter_admin_partition : Bool
  pub write_set : List ℕ
  pub has_missing_keys : Bool
  pub has_related_foreign_keys : Bool
  pub write_set_limit_reached : Bool
  -- is_empty_transaction_in_binlog_cache(thd)
  pub is_empty_transaction : Bool
  -- the session's transaction_write_set_extraction
  pub write_set_extraction : ℕ
  pub last_session_sequence_number : ℤ

unfoldable pub is_trx_unsafe_for_parallel_slave : Thd → Bool
is_trx_unsafe_for_parallel_slave thd = elim thd.sql_command [
  | analyze ↦ true
  | repair ↦ true
  | optimize ↦ true
  | create_db ↦ true
  | alter_db ↦ true
  | drop_db ↦ true
  | alter_table ↦ thd.alter_admin_partition
  | other n ↦ false
]
