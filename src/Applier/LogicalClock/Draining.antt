-- ===== src/Applier/LogicalClock/Draining.antt =====
-- Mts_submode_logical_clock::wait_for_workers_to_finish: the wait for all workers.
use knowledge_base.Base.{
  ℕ, ◌≤◌, ltb, ◌≡◌, refl, Bool, true, false, not, ◌||◌, some, List, [], ◌∷◌, if◌then◌else◌,
  Bool-cases, Option-cases, inl, inr, ◌⊎◌, arith,
}
use knowledge_base.Tracking.Clock.{seq_uninit}
use knowledge_base.Applier.Coordinator.{not_in_group}
use knowledge_base.Applier.LogicalClock.{
  State, Checkpoint, checkpoint, is_busy, drain, all_running, finish_waiting,
  wait_for_workers_to_finish,
}

-- What a checkpoint leaves alone.
abbrev pub SameEvent : State → State → Type 0
SameEvent s t =
    (t.m.delegated_jobs ≡ s.m.delegated_jobs)
    × (t.m.sequence_number ≡ s.m.sequence_number)
    × (t.m.last_committed ≡ s.m.last_committed)
    × (t.m.is_new_group ≡ s.m.is_new_group)
    × (t.rli.workers ≡ s.rli.workers)

drain-stop :
    (rounds : List Checkpoint) (s t : State) (failed : Bool)
    → drain rounds s ≡ some (t, failed)
    → (failed ≡ false → is_busy t ≡ false) × SameEvent s t
unfolding drain checkpoint
drain-stop [] s t failed h = ground arith
drain-stop (c ∷ cs) s t failed h = ground (arith, drain-stop cs (checkpoint c s) t failed)

finished :
    (rounds : List Checkpoint) (s t u : State) (failed : Bool)
    → drain rounds s ≡ some (u, failed)
    → (failed ≡ false → is_busy u ≡ false) × SameEvent s u
    → wait_for_workers_to_finish rounds s ≡ some (t, true)
    → (t.m.delegated_jobs ≤ t.m.jobs_done)
      × (all_running t.rli.workers ≡ true)
      × ((t.rli.killed || t.m.is_error) ≡ false)
      × (t.rli.gaq.lwm ≡ seq_uninit)
      × (t.rli.mts_group_status ≡ not_in_group)
      × SameEvent s t
unfolding wait_for_workers_to_finish finish_waiting is_busy
finished rounds s t u true e v h = absurd (ground (arith, e))
finished rounds s t u false e v h = ground (arith, e, v.0 refl)

-- When the wait for the workers reports success, every delegated job is done, every worker runs, and
-- nothing was killed or failed; the low-water-mark is reset and the coordinator is out of a group.
pub wait_for_workers_to_finish_sound :
    (rounds : List Checkpoint) (s t : State)
    → wait_for_workers_to_finish rounds s ≡ some (t, true)
    → (t.m.delegated_jobs ≤ t.m.jobs_done)
      × (all_running t.rli.workers ≡ true)
      × ((t.rli.killed || t.m.is_error) ≡ false)
      × (t.rli.gaq.lwm ≡ seq_uninit)
      × (t.rli.mts_group_status ≡ not_in_group)
      × SameEvent s t
unfolding wait_for_workers_to_finish finish_waiting
wait_for_workers_to_finish_sound rounds s t h = elim (Option-cases (drain rounds s)) [
  | inl e ↦ absurd (ground (arith, e))
  | inr ((u, failed), e) ↦ finished rounds s t u failed e (drain-stop rounds s u failed e) h
]

-- A checkpoint after which the coordinator has nothing to wait for, or that fails.
abbrev pub settles : ℕ → Checkpoint → Bool
settles delegated c = c.fails || not (ltb c.jobs_done delegated) || c.killed || c.is_error

abbrev pub some_settles : ℕ → List Checkpoint → Bool
some_settles delegated [] = false
some_settles delegated (c ∷ cs) = settles delegated c || some_settles delegated cs

more-settles :
    (c : Checkpoint) (cs : List Checkpoint) (s : State)
    → some_settles s.m.delegated_jobs (c ∷ cs) ≡ true
    → c.fails ≡ false
    → (is_busy (checkpoint c s) ≡ false) ⊎ (some_settles s.m.delegated_jobs cs ≡ true)
unfolding is_busy checkpoint
more-settles c cs s h f = ground arith

drain_idle : (cs : List Checkpoint) (s : State) → is_busy s ≡ false → drain cs s ≡ some (s, false)
unfolding drain
drain_idle [] s h = rw h
drain_idle (c ∷ cs) s h = rw h

drain_returns :
    (rounds : List Checkpoint) (s : State)
    → some_settles s.m.delegated_jobs rounds ≡ true
    → (r : State × Bool) × (drain rounds s ≡ some r)
unfolding drain checkpoint
drain_returns [] s h = cc
drain_returns (c ∷ cs) s h = elim (Bool-cases (is_busy s)) [
  | inr idle ↦ ((s, false), rw idle)
  | inl busy ↦ elim (Bool-cases c.fails) [
    | inl fails ↦ ((checkpoint c s, true), rw (busy, fails))
    | inr works ↦ elim (more-settles c cs s h works) [
      | inl idle ↦ ((checkpoint c s, false), rw (busy, works, drain_idle cs _ idle))
      | inr more ↦ let (r, e) = drain_returns cs (checkpoint c s) more in (r, rw (busy, works, e))
    ]
  ]
]

-- The wait for the workers returns once some checkpoint fails or finds all jobs done, the
-- coordinator killed or an error.
pub wait_for_workers_to_finish_returns :
    (rounds : List Checkpoint) (s : State)
    → some_settles s.m.delegated_jobs rounds ≡ true
    → (r : State × Bool) × (wait_for_workers_to_finish rounds s ≡ some r)
unfolding wait_for_workers_to_finish
wait_for_workers_to_finish_returns rounds s h =
    let (r, e) = drain_returns rounds s h in
    ((if r.1 then (r.0, false) else finish_waiting r.0), rw e)
