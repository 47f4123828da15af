-- ===== src/Tracking/Writeset/Loop.antt =====
-- The loop of the write set tracker against a description by the history before it.
use knowledge_base.Base.{
  ℕ, ◌+◌, ◌≤◌, ℤ, ◌≤ℤ◌, ◌<ℤ◌, ◌==◌, ==_iff, ◌≡◌, refl, Bool, true, false, none, some, List, [], ◌∷◌,
  length, contains, find, find-insert, length-insert, arith, Bool-cases, ≤ℤ_trans, if◌then◌else◌,
  ◌⊎◌, inl, inr, ◌∙◌, ap, sym,
}
use knowledge_base.Tracking.Writeset.{Scan, visit, scan}

module _ (exceeds : Bool) (n : ℤ) where
  visit-le : (row : ℕ) (s : Scan) → s.last_parent ≤ℤ (visit exceeds n row s).last_parent
  unfolding visit
  visit-le row s = ground arith

  visit-covers :
      (row : ℕ) (s : Scan) (w : ℤ)
      → find row s.history ≡ some w
      → w <ℤ n
      → w ≤ℤ (visit exceeds n row s).last_parent
  unfolding visit
  visit-covers row s w h l = ground arith

  find-visit :
      (row j : ℕ) (s : Scan)
      → find j (visit exceeds n row s).history ≡ (
          if row == j
          then elim (find row s.history) [
            | none ↦ (if exceeds then none else some n)
            | some w ↦ some n
          ]
          else find j s.history)
  unfolding visit
  find-visit row j s = ground (arith, find-insert row j n s.history)

  -- The parent found is at least the one that the loop starts from.
  pub scan-le : (rows : List ℕ) (s : Scan) → s.last_parent ≤ℤ (scan exceeds n rows s).last_parent
  unfolding scan
  scan-le [] s = omega arith
  scan-le (row ∷ rows) s =
      ≤ℤ_trans s.last_parent (visit exceeds n row s).last_parent
        (scan exceeds n rows (visit exceeds n row s)).last_parent (visit-le row s)
        (scan-le rows (visit exceeds n row s))

  -- It is at least every earlier writer, by the history before the loop, of a row of the write set.
  pub scan-covers :
      (rows : List ℕ) (s : Scan) (k : ℕ) (w : ℤ)
      → contains k rows ≡ true
      → find k s.history ≡ some w
      → w <ℤ n
      → w ≤ℤ (scan exceeds n rows s).last_parent
  unfolding scan contains
  scan-covers [] s k w c h l = cc
  scan-covers (row ∷ rows) s k w c h l = elim (Bool-cases (row == k)) [
    | inl e ↦
        ≤ℤ_trans w (visit exceeds n row s).last_parent
          (scan exceeds n rows (visit exceeds n row s)).last_parent
          (visit-covers row s w (rw ((==_iff row k).0 e) h) l)
          (scan-le rows (visit exceeds n row s))
    | inr e ↦
        scan-covers rows (visit exceeds n row s) k w (ground arith) (rw (find-visit row k s, e) h) l
  ]

  -- After the loop the rows of the write set are recorded with this transaction, but for the new
  -- ones where the capacity is exceeded, and every other row is as before.
  pub find-scan :
      (rows : List ℕ) (j : ℕ) (s : Scan)
      → find j (scan exceeds n rows s).history ≡ (
          if contains j rows
          then elim (find j s.history) [
            | none ↦ (if exceeds then none else some n)
            | some w ↦ some n
          ]
          else find j s.history)
  unfolding scan contains
  find-scan [] j s = refl
  find-scan (row ∷ rows) j s =
      ground (arith, find-scan rows j (visit exceeds n row s), find-visit row j s)

  visit_attained :
      (row : ℕ) (s : Scan)
      → ((visit exceeds n row s).last_parent ≡ s.last_parent)
        ⊎ (find row s.history ≡ some (visit exceeds n row s).last_parent)
          × ((visit exceeds n row s).last_parent <ℤ n)
  unfolding visit
  visit_attained row s = ground arith

  -- An earlier writer that is on record after a round was there before it.
  find-visit_earlier :
      (row k : ℕ) (s : Scan) (w : ℤ)
      → find k (visit exceeds n row s).history ≡ some w
      → w <ℤ n
      → find k s.history ≡ some w
  find-visit_earlier row k s w h l = ground (arith, find-visit row k s)

  -- The parent found is the one that the loop starts from, or the last writer of some row of the
  -- write set.
  pub scan_attained :
      (rows : List ℕ) (s : Scan)
      → ((scan exceeds n rows s).last_parent ≡ s.last_parent)
        ⊎ ((k : ℕ) × (contains k rows ≡ true)
            × (find k s.history ≡ some (scan exceeds n rows s).last_parent)
            × ((scan exceeds n rows s).last_parent <ℤ n))
  unfolding scan contains
  scan_attained [] s = inl refl
  scan_attained (row ∷ rows) s = elim (scan_attained rows (visit exceeds n row s)) [
    | inl e ↦ elim (visit_attained row s) [
      | inl e' ↦ inl (e ∙ e')
      | inr (h, l) ↦ inr (row, rw ((==_iff row row).1 refl), h ∙ ap some (sym e), rw e l)
    ]
    | inr (k, c, h, l) ↦ inr (k, ground arith, find-visit_earlier row k s _ h l, l)
  ]

pub length-scan-within :
    (n : ℤ) (rows : List ℕ) (s : Scan)
    → length (scan false n rows s).history ≤ length s.history + length rows
unfolding scan visit
length-scan-within n [] s = omega arith
length-scan-within n (row ∷ rows) s =
    ground (arith, length-scan-within n rows (visit false n row s), length-insert row n s.history)
