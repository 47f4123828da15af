-- ===== src/Index/CrashSafe/Recovered.antt =====
-- What a restart finds after a crash anywhere in remove_logs_from_index.
use mathlib.Core.List.{append-nil, append_assoc}
use knowledge_base.Base.{
  ℕ, zero, suc, ◌<◌, ◌≤◌, not, ◌||◌, Option, none, some, List, [], ◌∷◌, ◌++◌, drop, take, take-drop,
  length, length-drop, map, All, ◌≡◌, refl, sym, ap, ◌∙◌, ◌⊎◌, inl, inr, arith, if_cases,
}
use knowledge_base.Index.CrashSafe.{
  Disk, contents, overwrite, max_retries, retry, Answers, Run, open_crash_safe_index_file,
  copy_file, last_of, with_copy, move_crash_safe_index_file, remove_logs_from_index,
  open_index_file, reversed,
}

drop-nil : (n : ℕ) → drop {A = ℕ} n [] ≡ []
drop-nil zero = refl
drop-nil (suc n) = refl

overwrite-nil : (bytes : List ℕ) → overwrite bytes [] ≡ bytes
unfolding overwrite
overwrite-nil bytes = ap (◌++◌ bytes) (drop-nil (length bytes)) ∙ append-nil bytes

-- The copy over an empty file ends with the whole source.
copy-last :
    (fuel io_size : ℕ) (written rest : List ℕ)
    → length rest ≤ fuel
    → 0 < io_size
    → last_of written (copy_file fuel io_size [] written rest) ≡ written ++ rest
unfolding copy_file
copy-last zero io_size written [] h pos = sym (append-nil written)
copy-last zero io_size written (b ∷ rest) h pos = absurd (omega arith)
copy-last (suc fuel) io_size written [] h pos = sym (append-nil written)
copy-last (suc fuel) zero written (b ∷ rest) h pos = absurd (omega arith)
copy-last (suc fuel) (suc n) written (b ∷ rest) h pos =
    let written' = written ++ (b ∷ take n rest) in
    ap (λ (c : List ℕ). last_of c (copy_file fuel (suc n) [] written' (drop n rest)))
      (overwrite-nil written')
    ∙ copy-last fuel (suc n) written' (drop n rest) (omega (arith, length-drop n rest)) pos
    ∙ append_assoc written (b ∷ take n rest) (drop n rest)
    ∙ ap (λ (l : List ℕ). written ++ (b ∷ l)) (take-drop n rest)

-- The index that a restart finds.
abbrev pub recovered : Disk → List ℕ
recovered d = contents (open_index_file d).index_file

module _ (old new : List ℕ) where
  abbrev pub OldOrNew : Disk → Type 0
  OldOrNew d = (recovered d ≡ old) ⊎ (recovered d ≡ new)

  -- Whatever the other file holds.
  old-OldOrNew : (d : Disk) → d.index_file ≡ some old → OldOrNew d
  unfolding open_index_file
  old-OldOrNew d h = inl (by_index d.index_file h)
    where
      by_index :
          (x : Option (List ℕ))
          → x ≡ some old
          → contents
              (elim x as (λ _. Disk) [
                | some bytes ↦ d
                | none ↦ elim d.crash_safe_index_file as (λ _. Disk) [
                  | some bytes ↦ record { index_file = some bytes; crash_safe_index_file = none }
                  | none ↦ record d { index_file = some [] }
                ]
              ]).index_file
            ≡ old
      by_index none e = cc
      by_index (some bytes) e = ap contents h

  copies-OldOrNew :
      (d : Disk) (cs : List (List ℕ))
      → d.index_file ≡ some old
      → All OldOrNew (map (with_copy d) cs)
  copies-OldOrNew d [] h = tt
  copies-OldOrNew d (c ∷ cs) h = (old-OldOrNew (with_copy d c) h, copies-OldOrNew d cs h)

  reversed-All :
      (P : Disk → Type 0) (acc ds : List Disk) → All P acc → All P ds → All P (reversed acc ds)
  reversed-All P acc [] h k = h
  reversed-All P acc (d ∷ ds) h k = reversed-All P (d ∷ acc) ds (k.0, h) k.1

  abbrev AllStates : Run → Type 0
  AllStates r = OldOrNew r.disk × All OldOrNew r.before

  -- Between the deletion and the renaming.
  deleted-OldOrNew :
      (d : Disk) → d.crash_safe_index_file ≡ some new → OldOrNew (record d { index_file = none })
  unfolding open_index_file
  deleted-OldOrNew d k = inr (by_copy d.crash_safe_index_file k)
    where
      by_copy :
          (x : Option (List ℕ))
          → x ≡ some new
          → contents
              (elim x as (λ _. Disk) [
                | some bytes ↦ record { index_file = some bytes; crash_safe_index_file = none }
                | none ↦ record { index_file = some []; crash_safe_index_file = x }
              ]).index_file
            ≡ new
      by_copy none e = cc
      by_copy (some bytes) e = ap contents e

  renamed-OldOrNew :
      (d : Disk)
      → d.crash_safe_index_file ≡ some new
      → OldOrNew (record { index_file = d.crash_safe_index_file; crash_safe_index_file = none })
  unfolding open_index_file
  renamed-OldOrNew d k = inr (by_index d.crash_safe_index_file k)
    where
      by_index :
          (x : Option (List ℕ))
          → x ≡ some new
          → contents
              (elim x as (λ _. Disk) [
                | some bytes ↦ record { index_file = x; crash_safe_index_file = none }
                | none ↦ record { index_file = some []; crash_safe_index_file = none }
              ]).index_file
            ≡ new
      by_index none e = cc
      by_index (some bytes) e = ap contents e

  move-OldOrNew :
      (a : Answers) (d : Disk) (before : List Disk)
      → d.index_file ≡ some old
      → d.crash_safe_index_file ≡ some new
      → All OldOrNew before
      → AllStates (move_crash_safe_index_file a d before)
  unfolding move_crash_safe_index_file
  move-OldOrNew a d before h k all =
      let here = old-OldOrNew d h in
      let deleted = deleted-OldOrNew d k in
      if_cases AllStates (not (retry max_retries a.delete_fails))
        (λ _. (old-OldOrNew (record d { crash_safe_index_file = none }) h, (here, all)))
        (λ _.
          if_cases AllStates (not (retry max_retries a.rename_fails)) (λ _. (deleted, (here, all)))
            (λ _. (renamed-OldOrNew d k, (deleted, (here, all)))))

abbrev pub at_rest : List ℕ → Disk
at_rest old = record { index_file = some old; crash_safe_index_file = none }

-- The disk holds the old index and no crash-safe file. Then every state of the disk on the way of
-- remove_logs_from_index, from the first to the last and after each single write of the copy, whatever
-- fails, is such that a restart from there finds either the old index or the index without its first
-- bytes, whole.
pub remove_logs_from_index-OldOrNew :
    (a : Answers) (io_size offset : ℕ) (old : List ℕ)
    → 0 < io_size
    → let r = remove_logs_from_index a io_size offset (at_rest old) in
      OldOrNew old (drop offset old) r.disk × All (OldOrNew old (drop offset old)) r.before
unfolding remove_logs_from_index open_crash_safe_index_file
remove_logs_from_index-OldOrNew a io_size offset old pos =
    let new = drop offset old in
    let d = at_rest old in
    let copies = copy_file (length new) io_size [] [] new in
    let copied = with_copy d (last_of [] copies) in
    let start = old-OldOrNew old new d refl in
    let before =
      reversed-All old new (OldOrNew old new) (with_copy d [] ∷ d ∷ []) (map (with_copy d) copies)
        (old-OldOrNew old new (with_copy d []) refl, (start, tt))
        (copies-OldOrNew old new d copies refl) in
    if_cases (AllStates old new) a.open_fails (λ _. (start, tt))
      (λ _.
        if_cases (AllStates old new) (a.copy_fails || a.close_fails)
          (λ _. (old-OldOrNew old new copied refl, before))
          (λ _.
            move-OldOrNew old new a copied
              (reversed (with_copy d [] ∷ d ∷ []) (map (with_copy d) copies)) refl
              (ap some (copy-last (length new) io_size [] new (omega arith) pos)) before))
