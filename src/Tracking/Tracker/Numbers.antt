-- ===== src/Tracking/Tracker/Numbers.antt =====
-- The number that a transaction gets, and the clocks that the flush of one leaves alone.
use knowledge_base.Base.{ℕ, ◌-ℤ◌, ◌≡◌, refl, ltb_ℤ, eqb_ℤ, pos, not, ◌&&◌, if_cases, ◌∙◌}
use knowledge_base.Tracking.Thd.{Thd, is_trx_unsafe_for_parallel_slave}
use knowledge_base.Tracking.CommitOrder
use knowledge_base.Tracking.CommitOrder.{CommitOrder, Dependency}
use knowledge_base.Tracking.Writeset
use knowledge_base.Tracking.Session
use knowledge_base.Tracking.Tracker.{Tracker, by_commit_order, by_writeset, get_dependency}
use knowledge_base.Tracking.Tracker.Invariant.{mode_cases}

abbrev SameClocks : CommitOrder → CommitOrder → Type 0
SameClocks t u =
    (u.transaction_counter ≡ t.transaction_counter)
    × (u.max_committed_transaction ≡ t.max_committed_transaction)

-- The number counts from the offset of the log, and neither clock moves.
abbrev pub Stamped : Tracker → Thd → Tracker → Dependency → Type 0
Stamped t thd u d =
    (d.sequence_number ≡ thd.sequence_number -ℤ t.m_commit_order.max_committed_transaction.offset)
    × SameClocks t.m_commit_order u.m_commit_order

commit_order-SameClocks :
    (t : CommitOrder) (thd : Thd) → SameClocks t (CommitOrder.get_dependency t thd).0
unfolding CommitOrder.get_dependency
commit_order-SameClocks t thd =
    if_cases (λ (u : CommitOrder). SameClocks t u) (is_trx_unsafe_for_parallel_slave thd)
      (λ _. (refl, refl)) (λ _. (refl, refl))

commit_order-number :
    (t : CommitOrder) (thd : Thd)
    → (CommitOrder.get_dependency t thd).1.sequence_number
      ≡ thd.sequence_number -ℤ t.max_committed_transaction.offset
unfolding CommitOrder.get_dependency
commit_order-number t thd = refl

session-number :
    (thd : Thd) (d : Dependency)
    → (Session.get_dependency thd d).1.sequence_number ≡ d.sequence_number
unfolding Session.get_dependency
session-number thd d =
    if_cases (λ (x : Dependency). x.sequence_number ≡ d.sequence_number)
      (not (eqb_ℤ thd.last_session_sequence_number (pos 0))
        && ltb_ℤ thd.last_session_sequence_number d.sequence_number)
      (λ _. refl) (λ _. refl)

by_commit_order-Stamped :
    (t : Tracker) (thd : Thd) → Stamped t thd (by_commit_order t thd).0 (by_commit_order t thd).1
unfolding by_commit_order
by_commit_order-Stamped t thd =
    (commit_order-number t.m_commit_order thd, commit_order-SameClocks t.m_commit_order thd)

by_writeset-Stamped :
    (extraction : ℕ) (t : Tracker) (thd : Thd)
    → Stamped t thd (by_writeset extraction t thd).0 (by_writeset extraction t thd).1
unfolding by_writeset Writeset.get_dependency by_commit_order
by_writeset-Stamped extraction t thd = by_commit_order-Stamped t thd

pub get_dependency-Stamped :
    (extraction : ℕ) (t : Tracker) (thd : Thd)
    → Stamped t thd (get_dependency extraction t thd).0 (get_dependency extraction t thd).2
get_dependency-Stamped extraction t thd =
    mode_cases (λ u d. Stamped t thd u d) extraction t thd (by_commit_order-Stamped t thd)
      (by_writeset-Stamped extraction t thd)
      (
        session-number thd (by_writeset extraction t thd).1
            ∙ (by_writeset-Stamped extraction t thd).0,
        (by_writeset-Stamped extraction t thd).1,
      )
