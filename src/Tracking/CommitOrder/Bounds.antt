-- ===== src/Tracking/CommitOrder/Bounds.antt =====
-- The invariant of the commit order tracker, and the range of the timestamps that it hands out.
use knowledge_base.Base.{
  ℤ, pos, ◌≤ℤ◌, ◌<ℤ◌, leb_ℤ, max_ℤ, ◌≡◌, refl, true, some, arith, +ℤ_parts, -ℤ_parts, leb→le,
  Bool-cases, ◌⊎◌, inl, inr, List, [], ◌∷◌, All, ◌-ℤ◌, ap,
}
use knowledge_base.Tracking.Thd.{Thd, is_trx_unsafe_for_parallel_slave}
use knowledge_base.Tracking.Clock.{LogicalClock, seq_uninit, set_if_greater, update_offset}
use knowledge_base.Tracking.Clock
use knowledge_base.Tracking.Clock.Cas.{set_if_greater-max}
use knowledge_base.Tracking.CommitOrder.{
  CommitOrder, init, get_dependency, step, rotate, update_max_committed,
}

-- Both clocks count from the same offset, and nothing is ahead of the counter.
pub record IsValid (t : CommitOrder) : Type 0 where
  pub offsets : t.max_committed_transaction.offset ≡ t.transaction_counter.offset
  pub offset_nonneg : pos 0 ≤ℤ t.transaction_counter.offset
  pub offset_behind : t.transaction_counter.offset ≤ℤ t.transaction_counter.state
  pub committed_behind : t.max_committed_transaction.state ≤ℤ t.transaction_counter.state
  pub blocking_behind : t.last_blocking_transaction ≤ℤ t.transaction_counter.state

-- What the source asserts of a transaction that is flushed now: its number is of this binary log,
-- above its parent's and above the last blocking one's.
pub record IsStamped (t : CommitOrder) (thd : Thd) : Type 0 where
  pub in_log : t.max_committed_transaction.offset <ℤ thd.sequence_number
  pub stepped : thd.sequence_number ≤ℤ t.transaction_counter.state
  pub after_parent : thd.last_committed <ℤ thd.sequence_number
  pub after_blocking : t.last_blocking_transaction <ℤ thd.sequence_number

pub init-IsValid : IsValid init
init-IsValid = ground arith

pub step-IsValid : {t : CommitOrder} → IsValid t → IsValid (step t).0
unfolding step Clock.step
step-IsValid {t} v = ground (arith, +ℤ_parts t.transaction_counter.state (pos 1))

pub rotate-IsValid : {t : CommitOrder} → IsValid t → IsValid (rotate t)
unfolding rotate update_offset
rotate-IsValid v = ground (arith, v.offset_nonneg)

pub get_dependency-IsValid :
    {t : CommitOrder} {thd : Thd} → IsValid t → IsStamped t thd → IsValid (get_dependency t thd).0
unfolding get_dependency
get_dependency-IsValid v s = ground arith

-- To record a number that was handed out before as committed always succeeds, keeps the invariant and
-- never takes the committed timestamp back; the timestamp is then at or above the number, unless the
-- number is of an earlier binary log.
pub update_max_committed-IsValid :
    (t : CommitOrder) (n : ℤ)
    → IsValid t
    → n ≤ℤ t.transaction_counter.state
    → (u : CommitOrder) × (update_max_committed t n ≡ some u)
      × IsValid u
      × (t.max_committed_transaction.state ≤ℤ u.max_committed_transaction.state)
      × ((n ≤ℤ t.max_committed_transaction.offset) ⊎ (n ≤ℤ u.max_committed_transaction.state))
unfolding update_max_committed max_ℤ
update_max_committed-IsValid t n v h =
    elim (Bool-cases (leb_ℤ n t.max_committed_transaction.offset)) [
      | inl old ↦ rw (set_if_greater-max, old) (t, refl, v, omega arith, inl (leb→le _ _ old))
      | inr new ↦
          rw (set_if_greater-max, new)
            (
              record t {
                max_committed_transaction = record t.max_committed_transaction {
                  state = max_ℤ t.max_committed_transaction.state n;
                };
              },
              refl,
              ground (arith, v.offsets),
              ground arith,
              inr (ground arith),
            )
    ]

-- The timestamps of a stamped transaction are relative to the binary log: its number is positive,
-- and its parent is SEQ_UNINIT, where the parent is of an earlier log, or else positive and below it.
pub get_dependency_bounds :
    (t : CommitOrder) (thd : Thd)
    → IsStamped t thd
    → let d = (get_dependency t thd).1 in
      let offset = t.max_committed_transaction.offset in
      (pos 0 <ℤ d.sequence_number)
      × ((thd.last_committed ≤ℤ offset) × (d.commit_parent ≡ seq_uninit)
          ⊎ (offset <ℤ thd.last_committed)
            × (pos 0 <ℤ d.commit_parent)
            × (d.commit_parent <ℤ d.sequence_number))
unfolding get_dependency max_ℤ
get_dependency_bounds t thd s = ground (
  arith,
  -ℤ_parts thd.sequence_number t.max_committed_transaction.offset,
  -ℤ_parts thd.last_committed t.max_committed_transaction.offset,
  -ℤ_parts t.last_blocking_transaction t.max_committed_transaction.offset,
)

-- The tracker after a sequence of transactions of one binary log.
unfoldable pub run : CommitOrder → List Thd → CommitOrder
run t [] = t
run t (thd ∷ thds) = run (get_dependency t thd).0 thds

-- No transaction of the sequence has a number below the given one.
abbrev pub From : ℤ → List Thd → Type 0
From n = All (λ (thd : Thd). n ≤ℤ thd.sequence_number)

run-blocking :
    (n : ℤ) (t : CommitOrder) (thds : List Thd)
    → From n thds
    → n ≤ℤ t.last_blocking_transaction
    → (n ≤ℤ (run t thds).last_blocking_transaction)
      × ((run t thds).max_committed_transaction ≡ t.max_committed_transaction)
unfolding run get_dependency
run-blocking n t [] from h = (h, refl)
run-blocking n t (thd ∷ thds) from h =
    let (low, same) =
      run-blocking n (get_dependency t thd).0 thds from.1 (ground (arith, from.0)) in
    (low, ground (arith, same))

blocked-parent :
    (u : CommitOrder) (n offset : ℤ) (later : Thd)
    → n ≤ℤ u.last_blocking_transaction
    → u.max_committed_transaction.offset ≡ offset
    → let p = (get_dependency u later).1.commit_parent in (p ≡ seq_uninit) ⊎ (n -ℤ offset ≤ℤ p)
unfolding get_dependency max_ℤ
blocked-parent u n offset later h e = ground (
  arith,
  -ℤ_parts n u.max_committed_transaction.offset,
  -ℤ_parts later.last_committed u.max_committed_transaction.offset,
  -ℤ_parts u.last_blocking_transaction u.max_committed_transaction.offset,
)

-- A statement that is unsafe for a parallel replica blocks: whatever transactions with higher numbers
-- are flushed after it, a later one of the same binary log gets either no parent or one that is not
-- before that statement.
pub get_dependency_blocks :
    (t : CommitOrder) (unsafe later : Thd) (between : List Thd)
    → is_trx_unsafe_for_parallel_slave unsafe ≡ true
    → From unsafe.sequence_number between
    → let (u, d) = get_dependency t unsafe in
      let p = (get_dependency (run u between) later).1.commit_parent in
      (p ≡ seq_uninit) ⊎ (d.sequence_number ≤ℤ p)
unfolding get_dependency
get_dependency_blocks t unsafe later between h from =
    let u : CommitOrder = record t { last_blocking_transaction = unsafe.sequence_number } in
    let (low, same) = run-blocking unsafe.sequence_number u between from (omega arith) in
    rw h (
      blocked-parent (run u between) unsafe.sequence_number t.max_committed_transaction.offset later
        low (ap (λ (c : LogicalClock). c.offset) same))
