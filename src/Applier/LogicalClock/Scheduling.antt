-- ===== src/Applier/LogicalClock/Scheduling.antt =====
-- Mts_submode_logical_clock::schedule_next_event: what a transaction has waited for.
use knowledge_base.Base.{
  ◌+◌, ◌%◌, ◌^◌, ℤ, pos, ◌+ℤ◌, ◌≤ℤ◌, ◌<ℤ◌, ◌≡◌, refl, ◌∙◌, ◌≢◌, Bool, true, false, not, ◌&&◌,
  Option, some, List, if_cases, Option-cases, inl, inr, ◌⊎◌, arith,
}
use knowledge_base.Tracking.Clock.{seq_uninit}
use knowledge_base.Applier.Coordinator.{in_group, Event, gtid_log_event}
use knowledge_base.Applier.LogicalClock.{
  Submode, State, FindLwm, Wake, Checkpoint, clock_leq, all_running, wait_for_workers_to_finish,
}
use knowledge_base.Applier.LogicalClock.Schedule.{
  Code, success, cant_parallel, read_timestamps, is_inconsistent, is_gap_successor, starts_group,
  schedule_in_group, schedule_new_group, schedule_next_event,
}
use knowledge_base.Applier.LogicalClock.Draining.{wait_for_workers_to_finish_sound}

-- The state in which the branches run: the timestamps are read, and the flags are set.
abbrev pub entered : Event → State → State
entered ev s =
    let read = read_timestamps ev s in record read { m = record read.m { first_event = false } }

abbrev pub gap : Event → State → Bool
gap ev s = is_gap_successor s.m.first_event s.m.sequence_number (entered ev s).m

abbrev pub new_group : Event → State → Bool
new_group ev s = starts_group (gap ev s) s.m.sequence_number (entered ev s).m

abbrev pub flagged : Event → State → State
flagged ev s = let e = entered ev s in record e { m = record e.m { is_new_group = new_group ev s } }

-- The four ways through schedule_next_event.
pub schedule_cases {ℓ} :
    (P : Option (State × Code) → Type ℓ) (find_lwm : FindLwm) (wakes : List Wake)
    (rounds : List Checkpoint) (ev : Event) (s : State)
    → (s.rli.sql_slave_killed ≡ true → P (some (s, success)))
    → (s.m.first_event ≡ false
        → is_inconsistent s.m.sequence_number (entered ev s).m ≡ true
        → P (some (entered ev s, cant_parallel)))
    → (new_group ev s ≡ true → P (schedule_new_group rounds (flagged ev s)))
    → (new_group ev s ≡ false → P (schedule_in_group find_lwm wakes (gap ev s) (flagged ev s)))
    → P (schedule_next_event find_lwm wakes rounds ev s)
unfolding schedule_next_event
schedule_cases P find_lwm wakes rounds ev s killed inconsistent fresh within =
    if_cases P s.rli.sql_slave_killed killed λ _.
      if_cases P (not s.m.first_event && is_inconsistent s.m.sequence_number (entered ev s).m)
        (λ i. inconsistent (ground arith) (ground arith))
        λ _. if_cases P (new_group ev s) fresh within

-- What the branch that waits for the parent alone leaves behind, when it succeeds.
abbrev pub Parented : State → State → Type 0
Parented s t =
    ((clock_leq s.m.last_committed t.m.last_lwm_timestamp ≡ true)
      ⊎ (s.rli.gaq.assigned_group_index ≡ s.rli.gaq.entry))
    × (t.m.delegated_jobs ≡ (s.m.delegated_jobs + 1) % 2 ^ 32)
    × (t.m.is_new_group ≡ s.m.is_new_group)

-- What the branch that waits for all workers leaves behind, when it succeeds.
abbrev pub Drained : State → State → Type 0
Drained s t =
    (all_running t.rli.workers ≡ true)
    × (t.m.delegated_jobs ≡ 1)
    × (t.m.jobs_done ≡ 0)
    × (t.m.force_new_group ≡ false)
    × (t.m.last_lwm_timestamp ≡ seq_uninit)
    × (t.rli.gaq.lwm ≡ seq_uninit)
    × (t.rli.mts_group_status ≡ in_group)
    × (t.m.is_new_group ≡ s.m.is_new_group)

new_group-Drained :
    (rounds : List Checkpoint) (s t : State)
    → schedule_new_group rounds s ≡ some (t, success)
    → Drained s t
unfolding schedule_new_group
new_group-Drained rounds s t h = elim (Option-cases (wait_for_workers_to_finish rounds s)) [
  | inl e ↦ absurd (ground (arith, e))
  | inr ((u, true), e) ↦ ground (arith, e, wait_for_workers_to_finish_sound rounds s u e)
  | inr ((u, false), e) ↦ absurd (ground (arith, e))
]

-- A transaction after a gap in the numbers always starts a new group, so the assignment to the
-- low-water-mark in the other branch is never made.
gap-false : (g : Bool) (last : ℤ) (m : Submode) → starts_group g last m ≡ false → g ≡ false
unfolding starts_group
gap-false g last m h = ground arith

numbered-parented :
    (g : Bool) (last : ℤ) (m : Submode)
    → starts_group g last m ≡ false
    → (m.last_committed ≢ seq_uninit) × (m.sequence_number ≢ seq_uninit)
unfolding starts_group
numbered-parented g last m h = (λ e. ground (arith, e), λ e. ground (arith, e))

pub within-numbers :
    (ev : Event) (s : State)
    → new_group ev s ≡ false
    → (gap ev s ≡ false)
      × ((flagged ev s).m.last_committed ≢ seq_uninit)
      × ((flagged ev s).m.sequence_number ≢ seq_uninit)
      × (s.m.first_event ≡ true
          ⊎ ((flagged ev s).m.sequence_number ≤ℤ s.m.sequence_number +ℤ pos 1))
unfolding starts_group is_gap_successor
within-numbers ev s h =
    let (c, n) = numbered-parented (gap ev s) s.m.sequence_number (flagged ev s).m h in
    (ground arith, c, n, ground arith)

-- What a transaction that is let through has waited for: all the jobs before it, or its parent.
abbrev pub Gated : Event → State → State → Type 0
Gated ev s t =
    ((t.m.is_new_group ≡ true) × Drained (flagged ev s) t)
    ⊎ ((t.m.is_new_group ≡ false)
        × Parented (flagged ev s) t
        × ((flagged ev s).m.last_committed ≢ seq_uninit)
        × (s.m.first_event ≡ true
            ⊎ ((flagged ev s).m.sequence_number ≤ℤ s.m.sequence_number +ℤ pos 1)))

starts :
    (g : Bool) (last : ℤ) (m : Submode)
    → (m.sequence_number ≡ seq_uninit
        ⊎ m.last_committed ≡ seq_uninit
        ⊎ m.force_new_group ≡ true
        ⊎ g ≡ true)
    → starts_group g last m ≡ true
unfolding starts_group
starts g last m why = ground arith

force-read : (ev : Event) (s : State) → (entered ev s).m.force_new_group ≡ s.m.force_new_group
unfolding read_timestamps
force-read (gtid_log_event number parent) s = refl
force-read _ s = refl

must-start :
    (ev : Event) (s : State)
    → ((flagged ev s).m.sequence_number ≡ seq_uninit
        ⊎ (flagged ev s).m.last_committed ≡ seq_uninit
        ⊎ s.m.force_new_group ≡ true
        ⊎ (s.m.first_event ≡ false)
          × (s.m.sequence_number +ℤ pos 1 <ℤ (flagged ev s).m.sequence_number))
    → new_group ev s ≡ true
unfolding is_gap_successor
must-start ev s (inl n) = starts (gap ev s) s.m.sequence_number (entered ev s).m (inl n)
must-start ev s (inr (inl c)) = starts (gap ev s) s.m.sequence_number (entered ev s).m (inr (inl c))
must-start ev s (inr (inr (inl f))) =
    starts (gap ev s) s.m.sequence_number (entered ev s).m (inr (inr (inl (force-read ev s ∙ f))))
must-start ev s (inr (inr (inr (f, l)))) =
    starts (gap ev s) s.m.sequence_number (entered ev s).m (inr (inr (inr (ground arith))))

-- What must be serialised is: an event with no timestamps, or with no parent, or the first one after
-- start_new_group, or one that skips a number, is let through only as a new group.
pub schedule_next_event_serialises :
    (find_lwm : FindLwm) (wakes : List Wake) (rounds : List Checkpoint) (ev : Event) (s t : State)
    → s.rli.sql_slave_killed ≡ false
    → ((flagged ev s).m.sequence_number ≡ seq_uninit
        ⊎ (flagged ev s).m.last_committed ≡ seq_uninit
        ⊎ s.m.force_new_group ≡ true
        ⊎ (s.m.first_event ≡ false)
          × (s.m.sequence_number +ℤ pos 1 <ℤ (flagged ev s).m.sequence_number))
    → schedule_next_event find_lwm wakes rounds ev s ≡ some (t, success)
    → (t.m.is_new_group ≡ true) × Drained (flagged ev s) t
schedule_next_event_serialises find_lwm wakes rounds ev s t alive why =
    schedule_cases
      (λ r. r ≡ some (t, success) → (t.m.is_new_group ≡ true) × Drained (flagged ev s) t) find_lwm
      wakes rounds ev s (λ k h. cc) (λ _ _ h. cc)
      (λ n h. let d = new_group-Drained rounds (flagged ev s) t h in (ground (arith, d, n), d))
      λ n h. absurd (ground (arith, n, must-start ev s why))
