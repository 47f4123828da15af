-- ===== src/Tracking/Tracker.antt =====
-- Transaction_dependency_tracker: the three trackers behind the option
-- binlog_transaction_dependency_tracking.
pub mod Invariant
pub mod Numbers
use mathlib.Core.Option
use knowledge_base.Base.{ℕ, ℤ, pos, ◌-ℤ◌, Option, none, some}
use knowledge_base.Tracking.Thd.{Thd}
use knowledge_base.Tracking.Clock
use knowledge_base.Tracking.Clock.{seq_uninit}
use knowledge_base.Tracking.CommitOrder
use knowledge_base.Tracking.CommitOrder.{CommitOrder, Dependency}
use knowledge_base.Tracking.Writeset
use knowledge_base.Tracking.Writeset.{WritesetTracker}
use knowledge_base.Tracking.Session

-- m_opt_tracking_mode is a long: `unknown` is any value that is no mode.
pub data TrackingMode : Type 0 where
  commit_order writeset writeset_session : TrackingMode
  unknown : ℕ → TrackingMode

pub record Tracker : Type 0 where
  pub opt_tracking_mode : TrackingMode
  pub m_writeset : WritesetTracker
  pub m_commit_order : CommitOrder

abbrev pub default_history_size : ℕ
default_history_size = 25000

unfoldable pub init : Tracker
unfolding Writeset.init
init = record {
  opt_tracking_mode = commit_order;
  m_writeset = Writeset.init default_history_size;
  m_commit_order = CommitOrder.init;
}

-- The commit order part of every mode.
unfoldable pub by_commit_order : Tracker → Thd → Tracker × Dependency
by_commit_order t thd =
    let (c, d) = CommitOrder.get_dependency t.m_commit_order thd in
    (record t { m_commit_order = c }, d)

unfoldable pub by_writeset : ℕ → Tracker → Thd → Tracker × Dependency
by_writeset extraction t thd =
    let (t', d) = by_commit_order t thd in
    let (w, d') = Writeset.get_dependency extraction t'.m_writeset thd d in
    (record t' { m_writeset = w }, d')

unfoldable pub get_dependency : ℕ → Tracker → Thd → Tracker × Thd × Dependency
get_dependency extraction t thd = elim t.opt_tracking_mode [
  | commit_order ↦ let (t', d) = by_commit_order t thd in (t', thd, d)
  | writeset ↦ let (t', d) = by_writeset extraction t thd in (t', thd, d)
  | writeset_session ↦
      let (t', d) = by_writeset extraction t thd in
      let (thd', d') = Session.get_dependency thd d in (t', thd', d')
  | unknown mode ↦ let (t', d) = by_commit_order t thd in (t', thd, d)
]

unfoldable pub tracking_mode_changed : Tracker → Tracker
tracking_mode_changed t =
    let c = t.m_commit_order.max_committed_transaction in
    let timestamp = Clock.get_timestamp c -ℤ Clock.get_offset c in
    record t { m_writeset = Writeset.rotate t.m_writeset timestamp }

unfoldable pub update_max_committed : Tracker → Thd → Option (Tracker × Thd)
update_max_committed t thd =
    Option.map (λ c. (record t { m_commit_order = c }, record thd { sequence_number = seq_uninit }))
      (CommitOrder.update_max_committed t.m_commit_order thd.sequence_number)

unfoldable pub step : Tracker → Tracker × ℤ
step t = let (c, n) = CommitOrder.step t.m_commit_order in (record t { m_commit_order = c }, n)

-- `current_thd` is `none` where no session runs the rotation.
unfoldable pub rotate : Tracker → Option Thd → Tracker × Option Thd
rotate t current_thd = (
  record t {
    m_commit_order = CommitOrder.rotate t.m_commit_order;
    m_writeset = Writeset.rotate t.m_writeset (pos 1);
  },
  Option.map (λ (thd : Thd). record thd { sequence_number = pos 2 }) current_thd,
)

unfoldable pub get_max_committed_timestamp : Tracker → ℤ
get_max_committed_timestamp t = Clock.get_timestamp t.m_commit_order.max_committed_transaction
