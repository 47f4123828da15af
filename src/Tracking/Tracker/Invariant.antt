-- ===== src/Tracking/Tracker/Invariant.antt =====
-- The tracker as a state machine: numbering and flushing, committing, rotating, changing the mode.
use knowledge_base.Base.{
  ℕ, ◌≤◌, pos, ◌≤ℤ◌, ◌<ℤ◌, max_ℤ, ◌≡◌, refl, Option, some, [], length, arith, +ℤ_parts, -ℤ_parts,
  eqb_ℤ→eq, ◌⊎◌, ◌↔◌,
}
use knowledge_base.Tracking.Thd.{Thd}
use knowledge_base.Tracking.Clock
use knowledge_base.Tracking.Clock.{seq_uninit}
use knowledge_base.Tracking.CommitOrder
use knowledge_base.Tracking.CommitOrder.{CommitOrder, Dependency}
use knowledge_base.Tracking.CommitOrder.Bounds.{
  IsValid, IsStamped, init-IsValid, step-IsValid, rotate-IsValid, get_dependency-IsValid,
  update_max_committed-IsValid, get_dependency_bounds,
}
use knowledge_base.Tracking.Writeset
use knowledge_base.Tracking.Writeset.{WritesetTracker}
use knowledge_base.Tracking.Writeset.Soundness.{
  get_dependency_lowers, length-history, get_dependency-number,
}
use knowledge_base.Tracking.Session
use knowledge_base.Tracking.Tracker.{
  Tracker, TrackingMode, commit_order, writeset, writeset_session, unknown, init, by_commit_order,
  by_writeset, get_dependency, tracking_mode_changed, update_max_committed, step, rotate,
}

-- A transaction that is numbered and flushed at once, as binlog_cache_data::flush does it.
abbrev pub numbered : Tracker → Thd → Thd
numbered t thd = record thd { sequence_number = (step t).1 }

pub data Step : Tracker → Tracker → Type 0 where
  flushes :
      (extraction : ℕ) (t : Tracker) (thd : Thd)
      → thd.last_committed ≤ℤ t.m_commit_order.transaction_counter.state
      → Step t (get_dependency extraction (step t).0 (numbered t thd)).0
  commits :
      {t : Tracker} (thd : Thd) {u : Tracker × Thd}
      → thd.sequence_number ≤ℤ t.m_commit_order.transaction_counter.state
      → update_max_committed t thd ≡ some u
      → Step t u.0
  rotates : (t : Tracker) (current_thd : Option Thd) → Step t (rotate t current_thd).0
  changes_mode :
      (t : Tracker) (mode : TrackingMode)
      → Step t (tracking_mode_changed (record t { opt_tracking_mode = mode }))

pub data Reach : Tracker → Type 0 where
  starts : Reach init
  goes : {t u : Tracker} → Reach t → Step t u → Reach u

-- Of the two trackers that have state.
pub record Inv (t : Tracker) : Type 0 where
  pub order : IsValid t.m_commit_order
  pub bounded : length t.m_writeset.history ≤ t.m_writeset.opt_max_history_size

-- The number of a flush is above all that the tracker knows.
numbered-IsStamped :
    (t : Tracker) (thd : Thd)
    → IsValid t.m_commit_order
    → thd.last_committed ≤ℤ t.m_commit_order.transaction_counter.state
    → IsStamped (step t).0.m_commit_order (numbered t thd)
unfolding step CommitOrder.step Clock.step
numbered-IsStamped t thd v h =
    ground (arith, +ℤ_parts t.m_commit_order.transaction_counter.state (pos 1))

-- Whatever the mode, the tracker and the timestamps come from one of the three computations.
pub mode_cases {ℓ} :
    (P : Tracker → Dependency → Type ℓ) (extraction : ℕ) (t : Tracker) (thd : Thd)
    → P (by_commit_order t thd).0 (by_commit_order t thd).1
    → P (by_writeset extraction t thd).0 (by_writeset extraction t thd).1
    → P
        (by_writeset extraction t thd).0
        (Session.get_dependency thd (by_writeset extraction t thd).1).1
    → P (get_dependency extraction t thd).0 (get_dependency extraction t thd).2
unfolding get_dependency by_commit_order by_writeset
mode_cases P extraction t thd c w s = go t.opt_tracking_mode refl
  where
    go :
        (m : TrackingMode)
        → t.opt_tracking_mode ≡ m
        → P (get_dependency extraction t thd).0 (get_dependency extraction t thd).2
    go commit_order e = rw (e, get_dependency) c
    go writeset e = rw (e, get_dependency) w
    go writeset_session e = rw (e, get_dependency) s
    go (unknown n) e = rw (e, get_dependency) c

by_writeset-Inv :
    (extraction : ℕ) (t : Tracker) (thd : Thd)
    → IsStamped t.m_commit_order thd
    → Inv t
    → Inv (by_writeset extraction t thd).0
unfolding by_writeset by_commit_order
by_writeset-Inv extraction t thd s v = record {
  order = get_dependency-IsValid v.order s;
  bounded = length-history extraction t.m_writeset thd _ v.bounded;
}

by_commit_order-Inv :
    (t : Tracker) (thd : Thd)
    → IsStamped t.m_commit_order thd
    → Inv t
    → Inv (by_commit_order t thd).0
unfolding by_commit_order
by_commit_order-Inv t thd s v = record {
  order = get_dependency-IsValid v.order s;
  bounded = v.bounded;
}

step-Inv : (t : Tracker) → Inv t → Inv (step t).0
unfolding step
step-Inv t v = record { order = step-IsValid v.order; bounded = v.bounded }

init-Inv : Inv init
unfolding init Writeset.init
init-Inv = record { order = init-IsValid; bounded = omega arith }

commit-Inv :
    (t : Tracker) (thd : Thd) (u : Tracker × Thd)
    → thd.sequence_number ≤ℤ t.m_commit_order.transaction_counter.state
    → update_max_committed t thd ≡ some u
    → Inv t
    → Inv u.0
unfolding update_max_committed
commit-Inv t thd u h e v =
    let (c, found, valid, _, _) =
      update_max_committed-IsValid t.m_commit_order thd.sequence_number v.order h in
    record {
      order = ground (arith, found, valid, e);
      bounded = ground (arith, found, e, v.bounded);
    }

rotate-Inv : (t : Tracker) (current_thd : Option Thd) → Inv t → Inv (rotate t current_thd).0
unfolding rotate Writeset.rotate
rotate-Inv t current_thd v = record { order = rotate-IsValid v.order; bounded = omega arith }

changed-Inv :
    (t : Tracker) (mode : TrackingMode)
    → Inv t
    → Inv (tracking_mode_changed (record t { opt_tracking_mode = mode }))
unfolding tracking_mode_changed Writeset.rotate
changed-Inv t mode v = record { order = v.order; bounded = omega arith }

-- Every step keeps the clocks in order and the history within its limit.
pub Step-Inv : {t u : Tracker} → Step t u → Inv t → Inv u
Step-Inv (flushes extraction t thd h) v =
    mode_cases (λ u d. Inv u) extraction (step t).0 (numbered t thd)
      (by_commit_order-Inv (step t).0 (numbered t thd) (numbered-IsStamped t thd v.order h)
        (step-Inv t v))
      (by_writeset-Inv extraction (step t).0 (numbered t thd) (numbered-IsStamped t thd v.order h)
        (step-Inv t v))
      (by_writeset-Inv extraction (step t).0 (numbered t thd) (numbered-IsStamped t thd v.order h)
        (step-Inv t v))
Step-Inv (commits {t} thd h e) v = commit-Inv t thd _ h e v
Step-Inv (rotates t current_thd) v = rotate-Inv t current_thd v
Step-Inv (changes_mode t mode) v = changed-Inv t mode v

-- Whatever transactions were numbered, flushed and committed, and however often the log was rotated and
-- the mode was changed: no committed timestamp, blocking number or offset is ahead of the counter, both
-- clocks have the same offset, and the write set history is within its limit.
pub Reach-Inv : {t : Tracker} → Reach t → Inv t
Reach-Inv starts = init-Inv
Reach-Inv (goes r s) = Step-Inv s (Reach-Inv r)

-- The session tracker raises a parent to the session's last number, below the transaction's own.
session-lt :
    (thd : Thd) (d : Dependency)
    → d.commit_parent <ℤ d.sequence_number
    → ((Session.get_dependency thd d).1.sequence_number ≡ d.sequence_number)
      × (d.commit_parent ≤ℤ (Session.get_dependency thd d).1.commit_parent)
      × ((Session.get_dependency thd d).1.commit_parent <ℤ d.sequence_number)
unfolding Session.get_dependency max_ℤ
session-lt thd d h = ground arith

session_lem :
    (thd : Thd) (d : Dependency)
    → let r = Session.get_dependency thd d in
      (r.0.last_session_sequence_number ≡ r.1.sequence_number)
      × ((thd.last_session_sequence_number ≡ pos 0)
          ⊎ (r.1.sequence_number ≤ℤ thd.last_session_sequence_number)
          ⊎ (thd.last_session_sequence_number ≤ℤ r.1.commit_parent))
unfolding Session.get_dependency max_ℤ
session_lem thd d = ground (arith, eqb_ℤ→eq thd.last_session_sequence_number (pos 0))

-- The timestamps of one flush are in order.
abbrev IsOrdered : Dependency → Type 0
IsOrdered d = (pos 0 <ℤ d.sequence_number) × (d.commit_parent <ℤ d.sequence_number)

module _ (t : Tracker) (thd : Thd) (s : IsStamped t.m_commit_order thd) where
  by_commit_order-IsOrdered : IsOrdered (by_commit_order t thd).1
  unfolding by_commit_order
  by_commit_order-IsOrdered = ground (arith, get_dependency_bounds t.m_commit_order thd s)

  by_writeset-IsOrdered : (extraction : ℕ) → IsOrdered (by_writeset extraction t thd).1
  unfolding by_writeset
  by_writeset-IsOrdered extraction = ground (
    arith,
    by_commit_order-IsOrdered,
    get_dependency_lowers extraction (by_commit_order t thd).0.m_writeset thd
        (by_commit_order t thd).1,
    get_dependency-number extraction (by_commit_order t thd).0.m_writeset thd
        (by_commit_order t thd).1,
  )

  by_session-IsOrdered :
      (extraction : ℕ) → IsOrdered (Session.get_dependency thd (by_writeset extraction t thd).1).1
  by_session-IsOrdered extraction =
      ground
        (arith, by_writeset-IsOrdered extraction, session-lt thd (by_writeset extraction t thd).1)

-- In any reachable state and in any mode, a transaction that is numbered and flushed now gets a
-- positive number, and a parent below it.
pub get_dependency-lt :
    (extraction : ℕ) (t : Tracker) (thd : Thd)
    → Reach t
    → thd.last_committed ≤ℤ t.m_commit_order.transaction_counter.state
    → let d = (get_dependency extraction (step t).0 (numbered t thd)).2 in
      (pos 0 <ℤ d.sequence_number) × (d.commit_parent <ℤ d.sequence_number)
get_dependency-lt extraction t thd r h =
    let s = numbered-IsStamped t thd (Reach-Inv r).order h in
    mode_cases (λ u d. IsOrdered d) extraction (step t).0 (numbered t thd)
      (by_commit_order-IsOrdered (step t).0 (numbered t thd) s)
      (by_writeset-IsOrdered (step t).0 (numbered t thd) s extraction)
      (by_session-IsOrdered (step t).0 (numbered t thd) s extraction)

-- In the mode WRITESET_SESSION the session then remembers this transaction's number, and the parent is
-- not below the number of the session's last transaction, unless there is none or that number is not
-- below this transaction's, as after a rotation.
pub session_respected :
    (extraction : ℕ) (t : Tracker) (thd : Thd)
    → t.opt_tracking_mode ≡ writeset_session
    → let r = get_dependency extraction t thd in
      (r.1.last_session_sequence_number ≡ r.2.sequence_number)
      × ((thd.last_session_sequence_number ≡ pos 0)
          ⊎ (r.2.sequence_number ≤ℤ thd.last_session_sequence_number)
          ⊎ (thd.last_session_sequence_number ≤ℤ r.2.commit_parent))
unfolding get_dependency by_writeset by_commit_order
session_respected extraction t thd m = rw m (session_lem thd (by_writeset extraction t thd).1)

-- After a rotation and a change of mode the write set history starts at the committed timestamp as
-- the new binary log counts it, which is negative exactly when a numbered transaction has not
-- been recorded as committed.
rotate-tracking_mode_changed :
    (t : Tracker) (current_thd : Option Thd)
    → let u = tracking_mode_changed (rotate t current_thd).0 in
      let c = t.m_commit_order in
      (u.m_writeset.history ≡ [])
      × ((u.m_writeset.history_start <ℤ pos 0)
          ↔ (c.max_committed_transaction.state <ℤ c.transaction_counter.state))
unfolding tracking_mode_changed rotate Writeset.rotate CommitOrder.rotate Clock.update_offset
rotate-tracking_mode_changed t current_thd = ground (
  arith,
  -ℤ_parts t.m_commit_order.max_committed_transaction.state
      t.m_commit_order.transaction_counter.state,
)
