-- ===== src/Applier/Database/Released.antt =====
-- Mts_submode_database::wait_for_workers_to_finish: the partitions after the wait.
use mathlib.Core.Option
use mathlib.Core.List.{foldl}
use knowledge_base.Base.{
  ℕ, ==_iff, ◌≡◌, refl, ap, ◌∙◌, true, false, Option, none, some, List, [], ◌∷◌, All, map,
  Option-cases, Bool-cases, ◌⊎◌, inl, inr, arith,
}
use knowledge_base.Applier.Coordinator.{GroupStatus, not_in_group}
use knowledge_base.Applier.Database.{
  Partition, Release, await_release, Sync, is_running, is_ignored, settle, visit, visit_all,
  Outcome, wait_for_workers_to_finish,
}

await_release-stop :
    (ws : List Release) (r : Release) (rest : List Release)
    → await_release ws ≡ some (r, rest)
    → r.killed ≡ false
    → r.usage ≡ 0
unfolding await_release
await_release-stop [] r rest h k = cc
await_release-stop (w ∷ ws) r rest h k =
    ground (arith, await_release-stop ws r rest, ==_iff w.usage 0)

-- A partition that no worker holds, and whose tables were taken.
abbrev pub IsReleased : Partition → Type 0
IsReleased p = (p.usage ≡ 0) × (p.temporary_tables ≡ [])

module _ (move : List ℕ → List ℕ → List ℕ) where
  visit-IsReleased :
      (p q : Partition) (s t : Sync)
      → visit move none p s ≡ some (q, t)
      → t.killed ≡ false
      → IsReleased q
        × (s.killed ≡ false)
        × (t.tables ≡ move s.tables p.temporary_tables)
        × (t.cant_sync ≡ false → (is_running q.worker ≡ true) × (s.cant_sync ≡ false))
  unfolding visit is_ignored settle
  visit-IsReleased p q s t h k = elim (Option-cases (await_release s.wakes)) [
    | inl e ↦ ground (arith, e)
    | inr ((r, rest), e) ↦ ground (arith, e, await_release-stop s.wakes r rest e)
  ]

  -- What a run over the partitions `ps` from `s` has done, if the waits end.
  Done : List Partition → Sync → Option (List Partition × Sync) → Type 0
  Done ps s none = Unit {0}
  Done ps s (some (qs, t)) =
      t.killed ≡ false
      → All IsReleased qs
        × (s.killed ≡ false)
        × (t.tables ≡ foldl move s.tables (map (λ p. p.temporary_tables) ps))
        × (t.cant_sync ≡ false → All (λ p. is_running p.worker ≡ true) qs × (s.cant_sync ≡ false))

  Done-cons :
      (p q : Partition) (ps : List Partition) (s t : Sync)
      → visit move none p s ≡ some (q, t)
      → (o : Option (List Partition × Sync)) → Done ps t o
      → Done (p ∷ ps) s (Option.map (λ (r : List Partition × Sync). (q ∷ r.0, r.1)) o)
  unfolding Done
  Done-cons p q ps s t e none d = tt
  Done-cons p q ps s t e (some (qs, u)) d = λ k.
      let (released, alive, tables, runs) = d k in
      let (one, alive', taken, run) = visit-IsReleased p q s t e alive in
      (
        (one, released),
        alive',
        tables ∙ ap (λ (x : List ℕ). foldl move x (map (λ r. r.temporary_tables) ps)) taken,
        λ c. let (all, before) = runs c in let (this, first) = run before in ((this, all), first),
      )

  Done-step :
      (p : Partition) (ps : List Partition) (s : Sync) (o : Option (Partition × Sync))
      → visit move none p s ≡ o
      → ((t : Sync) → Done ps t (visit_all move none ps t))
      → Done (p ∷ ps) s (elim o [
        | none ↦ none
        | some (q, t) ↦
            Option.map (λ (r : List Partition × Sync). (q ∷ r.0, r.1)) (visit_all move none ps t)
      ])
  unfolding Done
  Done-step p ps s none e ih = tt
  Done-step p ps s (some (q, t)) e ih = Done-cons p q ps s t e (visit_all move none ps t) (ih t)

  visit_all-Done : (ps : List Partition) (s : Sync) → Done ps s (visit_all move none ps s)
  unfolding visit_all Done
  visit_all-Done [] s = λ k. (tt, k, refl, λ c. (tt, c))
  visit_all-Done (p ∷ ps) s = Done-step p ps s (visit move none p s) refl (visit_all-Done ps)

outcome-Done :
    (move : List ℕ → List ℕ → List ℕ) (ps : List Partition) (s : Sync)
    (r : Option (List Partition × Sync)) (f : List Partition × Sync → Outcome) (o : Outcome)
    → Done move ps s r
    → Option.map f r ≡ some o
    → (x : List Partition × Sync) × (o ≡ f x) × Done move ps s (some x)
outcome-Done move ps s none f o d h = cc
outcome-Done move ps s (some x) f o d h = (x, cc, d)

-- With no worker to ignore and the coordinator not killed: every partition is released and its
-- temporary tables are moved to the coordinator, in the order of the partitions; the coordinator is
-- out of a group; and a result other than -1 means that the worker of every partition runs.
pub wait_for_workers_to_finish-IsReleased :
    (move : List ℕ → List ℕ → List ℕ) (ps : List Partition) (status : GroupStatus) (s : Sync)
    (o : Outcome)
    → wait_for_workers_to_finish move none ps status s ≡ some o
    → o.sync.killed ≡ false
    → All IsReleased o.partitions
      × (o.sync.tables ≡ foldl move s.tables (map (λ p. p.temporary_tables) ps))
      × (o.mts_group_status ≡ not_in_group)
      × ((o.result ≡ none) ⊎ All (λ p. is_running p.worker ≡ true) o.partitions)
unfolding wait_for_workers_to_finish Done
wait_for_workers_to_finish-IsReleased move ps status s o h k =
    let ((qs, t), e, d) =
      outcome-Done move ps s (visit_all move none ps s) _ o (visit_all-Done move ps s) h in
    let (released, _, tables, runs) = d (ground (arith, e, k)) in
    rw e (
      released,
      tables,
      refl,
      elim (Bool-cases t.cant_sync) [ inl c ↦ inl (rw c) | inr c ↦ inr (runs c).0 ],
    )
