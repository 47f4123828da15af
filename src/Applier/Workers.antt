-- ===== src/Applier/Workers.antt =====
-- The choice of a worker: the database submode takes the last of the least occupied ones, the
-- logical clock submode the one of the transaction in progress or the first free one.
use knowledge_base.Base.{
  ℕ, ◌+◌, ◌≤◌, ◌<◌, leb, ◌==◌, ==_iff, ◌≡◌, refl, ap, Bool, true, false, Option, none, some, List,
  [], ◌∷◌, ◌++◌, ◌||◌, All, leb→le, le→leb, leb_false→lt, if_cases, Bool-cases, arith, inl, inr,
  ◌⊎◌,
}
use knowledge_base.Applier.Coordinator.{Worker, Rli, Event}
use knowledge_base.Applier.LogicalClock.Choice.{
  get_free_worker, Yield, yielded, spin, choose_free, choose_worker, get_least_occupied_worker,
  forget_dbs, assign, registered,
}

-- LONG_MAX, on a 64-bit system.
abbrev pub long_max : ℕ
long_max = 9223372036854775807

-- The loop over the workers, with the least usage so far and its worker.
pub scan_usage : ℕ → Option Worker → List Worker → Option Worker
scan_usage usage worker [] = worker
scan_usage usage worker (w ∷ ws) = elim (leb w.usage_partition usage) [
  | true ↦ scan_usage w.usage_partition (some w) ws
  | false ↦ scan_usage usage worker ws
]

-- Mts_submode_database::get_least_occupied_worker.
pub least_occupied : List Worker → Option Worker
unfolding scan_usage
least_occupied ws = scan_usage long_max none ws

-- The worker stands in the list, none before it has less to do, and all after it have more.
abbrev pub IsLastLeast : Worker → List Worker → Type 0
IsLastLeast w ws =
    (before : List Worker) × (rest : List Worker) × (ws ≡ before ++ w ∷ rest)
    × All (λ v. w.usage_partition ≤ v.usage_partition) before
    × All (λ v. w.usage_partition < v.usage_partition) rest

scan_usage-kept :
    (w : Worker) (ws : List Worker)
    → (All (λ v. w.usage_partition < v.usage_partition) ws
        × (scan_usage w.usage_partition (some w) ws ≡ some w))
      ⊎ ((v : Worker) × (scan_usage w.usage_partition (some w) ws ≡ some v)
          × (v.usage_partition ≤ w.usage_partition)
          × IsLastLeast v ws)
unfolding scan_usage
scan_usage-kept w [] = inl (tt, refl)
scan_usage-kept w (x ∷ ws) = elim (Bool-cases (leb x.usage_partition w.usage_partition)) [
  | inl less ↦ elim (scan_usage-kept x ws) [
    | inl (above, e) ↦ inr (x, rw (less, scan_usage) e, leb→le _ _ less, ([], ws, refl, tt, above))
    | inr (v, e, le, (before, rest, split, lo, hi)) ↦ inr (
      v,
      rw (less, scan_usage) e,
      ground (arith, le, leb→le _ _ less),
      (x ∷ before, rest, ap (◌∷◌ x) split, (le, lo), hi),
    )
  ]
  | inr more ↦ elim (scan_usage-kept w ws) [
    | inl (above, e) ↦ inl ((leb_false→lt _ _ more, above), rw (more, scan_usage) e)
    | inr (v, e, le, (before, rest, split, lo, hi)) ↦ inr (
      v,
      rw (more, scan_usage) e,
      le,
      (x ∷ before, rest, ap (◌∷◌ x) split, (ground (arith, le, leb_false→lt _ _ more), lo), hi),
    )
  ]
]

-- With a worker at all, and usages that a long can hold, the database submode chooses the last of
-- the least occupied workers.
least_occupied-IsLastLeast :
    (w : Worker) (ws : List Worker)
    → All (λ v. v.usage_partition ≤ long_max) (w ∷ ws)
    → (v : Worker) × (least_occupied (w ∷ ws) ≡ some v) × IsLastLeast v (w ∷ ws)
unfolding least_occupied
least_occupied-IsLastLeast w ws h = elim (scan_usage-kept w ws) [
  | inl (above, e) ↦ (w, rw (le→leb _ _ h.0, scan_usage) e, ([], ws, refl, tt, above))
  | inr (v, e, le, (before, rest, split, lo, hi)) ↦
      (v, rw (le→leb _ _ h.0, scan_usage) e, (w ∷ before, rest, ap (◌∷◌ w) split, (le, lo), hi))
]

-- A free worker, the first of those there are.
abbrev pub IsFirstFree : Worker → List Worker → Type 0
IsFirstFree w ws =
    (before : List Worker) × (rest : List Worker) × (ws ≡ before ++ w ∷ rest)
    × (w.jobs_len ≡ 0)
    × All (λ v. 0 < v.jobs_len) before

pub get_free_worker-IsFirstFree :
    (ws : List Worker)
    → ((get_free_worker ws ≡ none) × All (λ v. 0 < v.jobs_len) ws)
      ⊎ ((w : Worker) × (get_free_worker ws ≡ some w) × IsFirstFree w ws)
unfolding get_free_worker
get_free_worker-IsFirstFree [] = inl (refl, tt)
get_free_worker-IsFirstFree (w ∷ ws) = elim (Bool-cases (w.jobs_len == 0)) [
  | inl free ↦ inr (w, rw free, ([], ws, refl, (==_iff w.jobs_len 0).0 free, tt))
  | inr busy ↦ elim (get_free_worker-IsFirstFree ws) [
    | inl (e, all) ↦ inl (rw busy e, (ground arith, all))
    | inr (v, e, (before, rest, split, free, lo)) ↦
        inr (v, rw busy e, (w ∷ before, rest, ap (◌∷◌ w) split, free, (ground arith, lo)))
  ]
]

get_free_worker-free :
    (ws : List Worker) (w : Worker) → get_free_worker ws ≡ some w → w.jobs_len ≡ 0
get_free_worker-free ws w h = elim (get_free_worker-IsFirstFree ws) [
  | inl (e, _) ↦ ground (arith, e)
  | inr (v, e, (_, _, _, free, _)) ↦ ground (arith, e, free)
]

abbrev pub is_some : Option Worker → Bool
is_some none = false
is_some (some w) = true

-- A round of the busy wait that finds a free worker or a killed coordinator.
abbrev pub frees : Yield → Bool
frees y = y.killed || is_some (get_free_worker y.workers)

abbrev pub some_frees : List Yield → Bool
some_frees [] = false
some_frees (y ∷ ys) = frees y || some_frees ys

-- The busy wait yields a worker that is free, or none when the coordinator is killed.
abbrev Spun : Rli × Option Worker → Type 0
Spun r = ((r.1 ≡ none) × (r.0.killed ≡ true)) ⊎ ((w : Worker) × (r.1 ≡ some w) × (w.jobs_len ≡ 0))

found-Spun :
    (y : Yield) (rest : Option (Rli × Option Worker)) (rli : Rli) (r : Rli × Option Worker)
    → (rest ≡ some r → Spun r)
    → (o : Option Worker) → get_free_worker y.workers ≡ o
    → elim o [ none ↦ rest | some w ↦ some (yielded y rli, some w) ] ≡ some r
    → Spun r
found-Spun y rest rli r ih none e h = ih h
found-Spun y rest rli r ih (some w) e h = inr (w, ground arith, get_free_worker-free y.workers w e)

spin-Spun : (ys : List Yield) (rli : Rli) (r : Rli × Option Worker) → spin ys rli ≡ some r → Spun r
unfolding spin
spin-Spun [] rli r =
    if_cases (λ o. o ≡ some r → Spun r) rli.killed (λ k h. inl (ground arith)) (λ k h. cc)
spin-Spun (y ∷ ys) rli r =
    if_cases (λ o. o ≡ some r → Spun r) rli.killed (λ k h. inl (ground arith))
      λ _.
        found-Spun y (spin ys (yielded y rli)) rli r (spin-Spun ys (yielded y rli) r)
          (get_free_worker y.workers) refl

spin_killed : (ys : List Yield) (rli : Rli) → rli.killed ≡ true → spin ys rli ≡ some (rli, none)
unfolding spin
spin_killed [] rli k = ground arith
spin_killed (y ∷ ys) rli k = ground arith

found_returns :
    (y : Yield) (ys : List Yield) (rli : Rli)
    → some_frees (y ∷ ys) ≡ true
    → (o : Option Worker) → get_free_worker y.workers ≡ o
    → (some_frees ys ≡ true → (r : Rli × Option Worker) × (spin ys (yielded y rli) ≡ some r))
    → (r : Rli × Option Worker) × (elim o [
      | none ↦ spin ys (yielded y rli)
      | some w ↦ some (yielded y rli, some w)
    ]
        ≡ some r)
found_returns y ys rli h (some w) e ih = ((yielded y rli, some w), refl)
found_returns y ys rli h none e ih = elim (Bool-cases y.killed) [
  | inl k ↦ ((yielded y rli, none), spin_killed ys (yielded y rli) k)
  | inr k ↦ ih (ground (arith, e, k))
]

spin_returns :
    (ys : List Yield) (rli : Rli)
    → some_frees ys ≡ true
    → (r : Rli × Option Worker) × (spin ys rli ≡ some r)
unfolding spin
spin_returns [] rli h = cc
spin_returns (y ∷ ys) rli h =
    if_cases (λ o. (r : Rli × Option Worker) × (o ≡ some r)) rli.killed (λ _. ((rli, none), refl))
      λ _.
        found_returns y ys rli h (get_free_worker y.workers) refl (spin_returns ys (yielded y rli))

-- A worker of the transaction in progress, or a free one, or none with the coordinator killed.
abbrev pub Chosen : Option Worker → Rli × Option Worker → Type 0
Chosen assigned r =
    ((r.1 ≡ none) × (r.0.killed ≡ true) × (r.0.option_begin ≡ false))
    ⊎ ((w : Worker) × (r.1 ≡ some w) × (assigned ≡ some w ⊎ w.jobs_len ≡ 0))

Spun-Chosen :
    (n : ℕ) (rli : Rli) (o : Option Worker)
    → Spun (rli, o)
    → Chosen none (assign (record rli { mts_wq_no_underrun_cnt = n }, o))
Spun-Chosen n rli none (inl (_, k)) = inl (refl, k, refl)
Spun-Chosen n rli none (inr (w, e, _)) = cc
Spun-Chosen n rli (some v) (inl (e, _)) = cc
Spun-Chosen n rli (some v) (inr (w, e, free)) = inr (w, e, inr free)

choose_free-Chosen :
    (yields : List Yield) (rli : Rli) (free : Option Worker)
    → some_frees yields ≡ true
    → get_free_worker rli.workers ≡ free
    → (r : Rli × Option Worker) × (choose_free yields rli free ≡ some r) × Chosen none r
unfolding choose_free
choose_free-Chosen yields rli (some w) live e =
    ((registered w rli, some w), refl, inr (w, refl, inr (get_free_worker-free rli.workers w e)))
choose_free-Chosen yields rli none live e =
    let (r, found) = spin_returns yields rli live in
    (
      assign (record r.0 { mts_wq_no_underrun_cnt = r.0.mts_wq_no_underrun_cnt + 1 }, r.1),
      rw found,
      Spun-Chosen (r.0.mts_wq_no_underrun_cnt + 1) r.0 r.1 (spin-Spun yields rli r found),
    )

choose_worker-Chosen :
    (yields : List Yield) (rli : Rli) (assigned : Option Worker)
    → some_frees yields ≡ true
    → (r : Rli × Option Worker) × (choose_worker yields rli assigned ≡ some r) × Chosen assigned r
unfolding choose_worker
choose_worker-Chosen yields rli (some w) live = ((rli, some w), refl, inr (w, refl, inl refl))
choose_worker-Chosen yields rli none live =
    choose_free-Chosen yields rli (get_free_worker rli.workers) live refl

-- The logical clock submode: once a round of the busy wait finds a free worker or a killed
-- coordinator, it returns; the worker that it chooses, if any, is the one of the transaction in
-- progress or free; it chooses none only when the coordinator is killed, and then forgets the BEGIN.
pub get_least_occupied_worker-Chosen :
    (yields : List Yield) (ev : Event) (rli : Rli)
    → some_frees yields ≡ true
    → (r : Rli × Option Worker) × (get_least_occupied_worker yields ev rli
        ≡ some (r.0, r.1, forget_dbs ev))
      × Chosen rli.last_assigned_worker r
unfolding get_least_occupied_worker
get_least_occupied_worker-Chosen yields ev rli live =
    let (r, e, c) = choose_worker-Chosen yields rli rli.last_assigned_worker live in
    (r, ground (arith, e), c)
