-- ===== src/Tracking/Writeset/Soundness.antt =====
-- Writeset_trx_dependency_tracker over a sequence of transactions of one binary log.
use knowledge_base.Base.{
  ℕ, ◌+◌, ◌≤◌, ℤ, ◌≤ℤ◌, ◌<ℤ◌, min_ℤ, min_ℤ_bounds, ltb, ◌≡◌, refl, Bool, true, false, some, List,
  [], ◌∷◌, length, contains, find, arith, Bool-cases, ≤ℤ_trans, ◌⊎◌, inl, inr,
}
use knowledge_base.Tracking.Thd.{Thd}
use knowledge_base.Tracking.CommitOrder.{Dependency}
use knowledge_base.Tracking.Writeset.{
  WritesetTracker, Scan, scan, can_use_writesets, get_dependency,
}
use knowledge_base.Tracking.Writeset.Loop.{scan-le, scan-covers, find-scan, length-scan-within}

-- A transaction, with the timestamps that the commit order tracker gave it.
abbrev pub Flushed : Type 0
Flushed = Thd × Dependency

module _ (extraction : ℕ) where
  abbrev pub after : WritesetTracker → Flushed → WritesetTracker
  after t (thd, d) = (get_dependency extraction t thd d).0

  abbrev pub parent : WritesetTracker → Flushed → ℤ
  parent t (thd, d) = (get_dependency extraction t thd d).1.commit_parent

  unfoldable pub run : WritesetTracker → List Flushed → WritesetTracker
  run t [] = t
  run t (x ∷ xs) = run (after t x) xs

-- The numbers of the transactions ascend between two bounds.
abbrev pub Ascending : ℤ → List Flushed → ℤ → Type 0
Ascending low [] high = low <ℤ high
Ascending low ((thd, d) ∷ xs) high =
    (low <ℤ d.sequence_number) × Ascending d.sequence_number xs high

abbrev opening : WritesetTracker → Scan
opening t = record { last_parent = t.history_start; history = t.history }

-- The history is cleared, with this transaction as its start, or it is the one that the loop leaves
-- where the capacity holds.
after-cases :
    (extraction : ℕ) (t : WritesetTracker) (thd : Thd) (d : Dependency)
    → (after extraction t (thd, d) ≡ record t { history_start = d.sequence_number; history = [] })
      ⊎ (after extraction t (thd, d)
          ≡ record t { history = (scan false d.sequence_number thd.write_set (opening t)).history })
        × (length t.history + length thd.write_set ≤ t.opt_max_history_size)
unfolding get_dependency
after-cases extraction t thd d = ground arith

-- The parent is the one given, or the minimum of that and the one that the loop finds.
parent-cases :
    (extraction : ℕ) (t : WritesetTracker) (thd : Thd) (d : Dependency)
    → (parent extraction t (thd, d) ≡ d.commit_parent)
      ⊎ ((exceeds : Bool) × (parent extraction t (thd, d)
            ≡ min_ℤ
                (scan exceeds d.sequence_number thd.write_set (opening t)).last_parent
                d.commit_parent))
unfolding get_dependency
parent-cases extraction t thd d = elim (Bool-cases (can_use_writesets extraction thd)) [
  | inl usable ↦ elim (Bool-cases thd.has_missing_keys) [
    | inl missing ↦ inl (rw (usable, missing))
    | inr keyed ↦
        inr
          (ltb t.opt_max_history_size (length t.history + length thd.write_set), rw (usable, keyed))
  ]
  | inr unusable ↦ inl (rw unusable)
]

min_ℤ_mono : (a b c : ℤ) → a ≤ℤ b → min_ℤ a c ≤ℤ min_ℤ b c
unfolding min_ℤ
min_ℤ_mono a b c h = ground arith

-- The tracker remembers that a transaction with the number `n` has written the row: by an entry for
-- a writer that is as late, or by the start of the history. No entry for the row reaches `high`.
abbrev Covered : ℕ → ℤ → ℤ → WritesetTracker → Type 0
Covered row n high t =
    ((w : ℤ) × (find row t.history ≡ some w) × (n ≤ℤ w) × (w <ℤ high)) ⊎ (n ≤ℤ t.history_start)

module _ (extraction : ℕ) (row : ℕ) where
  -- Whatever the branch, a transaction is covered at the rows that it writes.
  writer-Covered :
      (t : WritesetTracker) (thd : Thd) (d : Dependency) (high : ℤ)
      → contains row thd.write_set ≡ true
      → d.sequence_number <ℤ high
      → Covered row d.sequence_number high (after extraction t (thd, d))
  writer-Covered t thd d high c l = elim (after-cases extraction t thd d) [
    | inl cleared ↦ rw cleared (inr (omega arith))
    | inr (kept, _) ↦ rw kept (
        inl (
          d.sequence_number,
          ground (arith, find-scan false d.sequence_number thd.write_set row (opening t)),
          omega arith,
          l,
        ))
  ]

  -- A later transaction keeps it so.
  later-Covered :
      (n high : ℤ) (t : WritesetTracker) (thd : Thd) (d : Dependency)
      → n <ℤ d.sequence_number
      → d.sequence_number <ℤ high
      → Covered row n d.sequence_number t
      → Covered row n high (after extraction t (thd, d))
  later-Covered n high t thd d l h c = elim (after-cases extraction t thd d) [
    | inl cleared ↦ rw cleared (inr (omega arith))
    | inr (kept, _) ↦ rw kept (elim c [
      | inr start ↦ inr start
      | inl (w, e, a, b) ↦ elim (Bool-cases (contains row thd.write_set)) [
        | inl own ↦ inl (
          d.sequence_number,
          ground (arith, find-scan false d.sequence_number thd.write_set row (opening t)),
          omega arith,
          h,
        )
        | inr other ↦ inl (
          w,
          ground (arith, find-scan false d.sequence_number thd.write_set row (opening t)),
          a,
          omega arith,
        )
      ]
    ])
  ]

  -- A transaction that writes a covered row gets a parent that does not pass the writer.
  Covered-parent :
      (n : ℤ) (t : WritesetTracker) (thd : Thd) (d : Dependency)
      → contains row thd.write_set ≡ true
      → Covered row n d.sequence_number t
      → min_ℤ n d.commit_parent ≤ℤ parent extraction t (thd, d)
  Covered-parent n t thd d c v = elim (parent-cases extraction t thd d) [
    | inl e ↦ rw e (min_ℤ_bounds n d.commit_parent).1
    | inr (exceeds, e) ↦ rw e (min_ℤ_mono n _ d.commit_parent (reached exceeds v))
  ]
    where
      reached :
          (exceeds : Bool)
          → Covered row n d.sequence_number t
          → n ≤ℤ (scan exceeds d.sequence_number thd.write_set (opening t)).last_parent
      reached exceeds (inl (w, e, a, b)) =
          ≤ℤ_trans n w (scan exceeds d.sequence_number thd.write_set (opening t)).last_parent a
            (scan-covers exceeds d.sequence_number thd.write_set (opening t) row w c e b)
      reached exceeds (inr start) =
          ≤ℤ_trans n t.history_start
            (scan exceeds d.sequence_number thd.write_set (opening t)).last_parent start
            (scan-le exceeds d.sequence_number thd.write_set (opening t))

  run-Covered :
      (n low high : ℤ) (t : WritesetTracker) (xs : List Flushed)
      → n ≤ℤ low
      → Ascending low xs high
      → ((top : ℤ) → low <ℤ top → Covered row n top t)
      → Covered row n high (run extraction t xs)
  unfolding run
  run-Covered n low high t [] le asc c = c high asc
  run-Covered n low high t ((thd, d) ∷ xs) le asc c =
      run-Covered n d.sequence_number high _ xs (omega arith) asc.1
        λ top l. later-Covered n top t thd d (omega arith) l (c d.sequence_number asc.0)

-- Two transactions of one binary log that write a common row, the second flushed after the first with
-- any others between them: the parent that the second gets is not below both the first's number and
-- the parent that the commit order gives it.
pub conflict_respected :
    (extraction : ℕ) (t : WritesetTracker) (first second : Flushed) (between : List Flushed)
    (row : ℕ)
    → contains row first.0.write_set ≡ true
    → contains row second.0.write_set ≡ true
    → Ascending first.1.sequence_number between second.1.sequence_number
    → min_ℤ first.1.sequence_number second.1.commit_parent
      ≤ℤ parent extraction (run extraction (after extraction t first) between) second
conflict_respected extraction t (x, dx) (y, dy) between row cx cy asc =
    Covered-parent extraction row dx.sequence_number _ y dy cy (
      run-Covered extraction row dx.sequence_number dx.sequence_number dy.sequence_number _ between
        (omega arith) asc λ top l. writer-Covered extraction row t x dx top cx l)

-- The write set tracker only ever lowers a parent, and never below the start of its history, so the
-- parent stays below the transaction's own number.
pub get_dependency_lowers :
    (extraction : ℕ) (t : WritesetTracker) (thd : Thd) (d : Dependency)
    → (parent extraction t (thd, d) ≤ℤ d.commit_parent)
      × (min_ℤ t.history_start d.commit_parent ≤ℤ parent extraction t (thd, d))
get_dependency_lowers extraction t thd d = elim (parent-cases extraction t thd d) [
  | inl e ↦ rw e (omega arith, (min_ℤ_bounds t.history_start d.commit_parent).1)
  | inr (exceeds, e) ↦ rw e (
    (min_ℤ_bounds _ d.commit_parent).1,
    min_ℤ_mono t.history_start _ d.commit_parent
        (scan-le exceeds d.sequence_number thd.write_set (opening t)),
  )
]

-- The history never holds more rows than the option allows.
pub length-history :
    (extraction : ℕ) (t : WritesetTracker) (thd : Thd) (d : Dependency)
    → length t.history ≤ t.opt_max_history_size
    → length (after extraction t (thd, d)).history
      ≤ (after extraction t (thd, d)).opt_max_history_size
length-history extraction t thd d h = elim (after-cases extraction t thd d) [
  | inl cleared ↦ rw cleared (omega arith)
  | inr (kept, fits) ↦
      rw kept (omega (arith, length-scan-within d.sequence_number thd.write_set (opening t)))
]

pub get_dependency-number :
    (extraction : ℕ) (t : WritesetTracker) (thd : Thd) (d : Dependency)
    → (get_dependency extraction t thd d).1.sequence_number ≡ d.sequence_number
unfolding get_dependency
get_dependency-number extraction t thd d = refl
