-- ===== src/Applier/LogicalClock/Waiting.antt =====
-- Mts_submode_logical_clock::wait_for_last_committed_trx: the wait for a commit parent.
use knowledge_base.Base.{
  ℤ, eqb_ℤ, eqb_ℤ→eq, ◌≡◌, refl, ◌≢◌, Bool, true, false, ◌||◌, some, List, [], ◌∷◌, if◌then◌else◌,
  Bool-cases, Option-cases, unless_true, inl, inr, ◌⊎◌, arith,
}
use knowledge_base.Tracking.Clock.{seq_uninit}
use knowledge_base.Applier.LogicalClock.{
  State, FindLwm, Wake, wake, clock_leq, get_lwm_timestamp, must_wait, await, listen, reset_waited,
  wait_for_last_committed_trx,
}

-- Some awakening ends the wait.
abbrev pub ends : ℤ → Wake → Bool
ends last_committed w = (w.killed || w.is_error) || clock_leq last_committed w.lwm

abbrev pub some_ends : ℤ → List Wake → Bool
some_ends last_committed [] = false
some_ends last_committed (w ∷ ws) = ends last_committed w || some_ends last_committed ws

await-stop :
    (last_committed : ℤ) (ws : List Wake) (s t : State)
    → await last_committed ws s ≡ some t
    → must_wait last_committed t ≡ false
unfolding await
await-stop last_committed [] s t h = ground arith
await-stop last_committed (w ∷ ws) s t h = ground (arith, await-stop last_committed ws (wake w s) t)

more-ends :
    (last_committed : ℤ) (w : Wake) (ws : List Wake) (s : State)
    → some_ends last_committed (w ∷ ws) ≡ true
    → must_wait last_committed (wake w s) ≡ true
    → some_ends last_committed ws ≡ true
unfolding must_wait wake
more-ends last_committed w ws s h on = ground arith

await_returns :
    (last_committed : ℤ) (ws : List Wake) (s : State)
    → some_ends last_committed ws ≡ true
    → (t : State) × (await last_committed ws s ≡ some t)
unfolding await
await_returns last_committed [] s h = cc
await_returns last_committed (w ∷ ws) s h =
    elim (Bool-cases (must_wait last_committed (wake w s))) [
      | inl on ↦
          let (t, e) =
            await_returns last_committed ws (wake w s) (more-ends last_committed w ws s h on) in
          (t, rw on e)
      | inr off ↦ (wake w s, rw off)
    ]

-- What no awakening changes.
abbrev pub SameJobs : State → State → Type 0
SameJobs s t =
    (t.m.delegated_jobs ≡ s.m.delegated_jobs)
    × (t.m.jobs_done ≡ s.m.jobs_done)
    × (t.m.sequence_number ≡ s.m.sequence_number)
    × (t.m.last_committed ≡ s.m.last_committed)
    × (t.m.is_new_group ≡ s.m.is_new_group)
    × (t.rli.gaq ≡ s.rli.gaq)
    × (t.rli.workers ≡ s.rli.workers)

await-SameJobs :
    (last_committed : ℤ) (ws : List Wake) (s t : State)
    → await last_committed ws s ≡ some t
    → SameJobs s t
unfolding await wake
await-SameJobs last_committed [] s t h = ground arith
await-SameJobs last_committed (w ∷ ws) s t h =
    ground (arith, await-SameJobs last_committed ws (wake w s) t)

get_lwm_timestamp-SameJobs :
    (find_lwm : FindLwm) (s : State) → SameJobs s (get_lwm_timestamp find_lwm s)
unfolding get_lwm_timestamp
get_lwm_timestamp-SameJobs find_lwm s = ground arith

clock_leq-uninit : (a b : ℤ) → eqb_ℤ a seq_uninit ≡ true → clock_leq a b ≡ true
unfolding clock_leq
clock_leq-uninit a b h = rw h

must_wait-stop :
    (parent : ℤ) (t : State)
    → must_wait parent t ≡ false
    → (t.rli.killed || t.m.is_error) ≡ false
    → clock_leq parent t.m.last_lwm_timestamp ≡ true
unfolding must_wait
must_wait-stop parent t h f = ground arith

module _ (find_lwm : FindLwm) (wakes : List Wake) (parent : ℤ) where
  listen-stop :
      (s t : State)
      → listen find_lwm wakes parent s ≡ some t
      → (must_wait parent t ≡ false) × SameJobs s t
  unfolding listen
  listen-stop s t h = ground (
    arith,
    get_lwm_timestamp-SameJobs find_lwm s,
    await-stop parent wakes (get_lwm_timestamp find_lwm s) t,
    await-SameJobs parent wakes (get_lwm_timestamp find_lwm s) t,
    await-stop parent wakes s t,
    await-SameJobs parent wakes s t,
  )

  listen_returns :
      (s : State)
      → some_ends parent wakes ≡ true
      → (t : State) × (listen find_lwm wakes parent s ≡ some t)
  unfolding listen
  listen_returns s live = go _
    where
      go :
          (s' : State)
          → (t : State) × ((if must_wait parent s' then await parent wakes s' else some s')
              ≡ some t)
      go s' = elim (Bool-cases (must_wait parent s')) [
        | inl on ↦ let (t, e) = await_returns parent wakes s' live in (t, rw (on, e))
        | inr off ↦ (s', rw off)
      ]

-- Once some awakening finds the parent committed, the coordinator killed or an error, the wait for a
-- commit parent returns; it then reports a failure exactly when the coordinator is killed or in error,
-- and otherwise the parent is at or below the low-water-mark. The waiting mark is taken back.
pub wait_for_last_committed_trx_returns :
    (find_lwm : FindLwm) (wakes : List Wake) (parent : ℤ) (s : State)
    → parent ≢ seq_uninit
    → some_ends parent wakes ≡ true
    → (t : State) × (failed : Bool) × (wait_for_last_committed_trx find_lwm wakes parent s
        ≡ some (t, failed))
      × (failed ≡ (t.rli.killed || t.m.is_error))
      × ((failed ≡ true) ⊎ (clock_leq parent t.m.last_lwm_timestamp ≡ true))
      × (t.m.min_waited_timestamp ≡ seq_uninit)
unfolding wait_for_last_committed_trx
wait_for_last_committed_trx_returns find_lwm wakes parent s ne live =
    let waiting : State = record s { m = record s.m { min_waited_timestamp = parent } } in
    let (t, e) = listen_returns find_lwm wakes parent waiting live in
    (
      reset_waited t,
      t.rli.killed || t.m.is_error,
      ground (arith, e, eqb_ℤ→eq parent seq_uninit),
      refl,
      unless_true (t.rli.killed || t.m.is_error)
          (must_wait-stop parent t (listen-stop find_lwm wakes parent waiting t e).0),
      refl,
    )

-- However long it waits, a wait that reports success leaves the parent at or below the low-water-mark,
-- and changes none of the job counts, the timestamps, the queue and the workers.
pub wait_for_last_committed_trx_sound :
    (find_lwm : FindLwm) (wakes : List Wake) (parent : ℤ) (s t : State) (failed : Bool)
    → wait_for_last_committed_trx find_lwm wakes parent s ≡ some (t, failed)
    → ((failed ≡ true) ⊎ (clock_leq parent t.m.last_lwm_timestamp ≡ true)) × SameJobs s t
unfolding wait_for_last_committed_trx
wait_for_last_committed_trx_sound find_lwm wakes parent s t failed h =
    elim (Bool-cases (eqb_ℤ parent seq_uninit)) [
      | inl none_to_wait ↦ ground (arith, clock_leq-uninit parent t.m.last_lwm_timestamp)
      | inr parented ↦
          let waiting : State = record s { m = record s.m { min_waited_timestamp = parent } } in
          elim (Option-cases (listen find_lwm wakes parent waiting)) [
            | inl e ↦ absurd (ground (arith, e))
            | inr (u, e) ↦
                let (stop, same) = listen-stop find_lwm wakes parent waiting u e in
                ground (arith, e, same, must_wait-stop parent u stop)
          ]
    ]
