-- ===== src/Tracking/CommitOrder.antt =====
-- Commit_order_trx_dependency_tracker.
pub mod Bounds
use mathlib.Core.Option
use knowledge_base.Base.{ℕ, ℤ, pos, ◌-ℤ◌, leb_ℤ, max_ℤ, Option, none, some, if◌then◌else◌}
use knowledge_base.Tracking.Thd.{Thd, is_trx_unsafe_for_parallel_slave}
use knowledge_base.Tracking.Clock.{LogicalClock, seq_uninit, set_if_greater, update_offset}
use knowledge_base.Tracking.Clock

pub record CommitOrder : Type 0 where
  pub max_committed_transaction : LogicalClock
  pub transaction_counter : LogicalClock
  pub last_blocking_transaction : ℤ

abbrev pub init : CommitOrder
init = record {
  max_committed_transaction = Clock.init;
  transaction_counter = Clock.init;
  last_blocking_transaction = seq_uninit;
}

-- The two reference arguments that get_dependency writes.
pub record Dependency : Type 0 where
  pub sequence_number : ℤ
  pub commit_parent : ℤ

unfoldable pub get_dependency : CommitOrder → Thd → CommitOrder × Dependency
get_dependency t thd =
    let offset = t.max_committed_transaction.offset in
    let blocked = max_ℤ thd.last_committed t.last_blocking_transaction in
    let parent = if leb_ℤ thd.last_committed offset then seq_uninit else blocked -ℤ offset in
    (
      (if is_trx_unsafe_for_parallel_slave thd
          then record t { last_blocking_transaction = thd.sequence_number }
          else t),
      record { sequence_number = thd.sequence_number -ℤ offset; commit_parent = parent },
    )

unfoldable pub step : CommitOrder → CommitOrder × ℤ
unfolding Clock.step
step t = let (c, n) = Clock.step t.transaction_counter in (record t { transaction_counter = c }, n)

unfoldable pub rotate : CommitOrder → CommitOrder
unfolding update_offset
rotate t =
    let now = Clock.get_timestamp t.transaction_counter in
    record t {
      max_committed_transaction = update_offset t.max_committed_transaction now;
      transaction_counter = update_offset t.transaction_counter now;
    }

-- The caller holds LOCK_slave_trans_dep_tracker, so no other thread moves the clock. The fuel is two
-- rounds of the loop.
unfoldable pub update_max_committed : CommitOrder → ℤ → Option CommitOrder
update_max_committed t sequence_number =
    Option.map (λ r. record t { max_committed_transaction = r.0 })
      (set_if_greater 2 (λ f s. s) t.max_committed_transaction sequence_number)
