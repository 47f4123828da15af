-- ===== src/Index/BeforeDate/Whole.antt =====
-- purge_logs_before_date as a whole.
use text.Mathlib.Text.{is_eq}
use text.Mathlib.TextPositions.{compare_refl}
use mathlib.Core.List.{append-nil}
use knowledge_base.Base.{
  ℕ, suc, Bool, true, false, Option, none, some, List, [], ◌∷◌, ◌++◌, length, All, ◌≡◌, ◌≢◌, refl,
  sym, ap, inl, inr, arith, Option-cases,
}
use knowledge_base.Index.{LogName, IndexError, Index, LogInfo, new_info, same_name, find_log_pos}
use knowledge_base.Index.Listing.{IsAt, find_log_pos-first}
use knowledge_base.Index.Purge.{Files, busy, Purge, purge_logs, conclude_purge}
use knowledge_base.Index.Purge.Chosen.{Purged, at_end, stopped, held, last, before}
use knowledge_base.Index.Purge.Deleted.{IsUnlisted}
use knowledge_base.Index.Purge.Whole.{Purging, purge_logs-Purging}
use knowledge_base.Index.BeforeDate.{choose_to_log, purge_chosen, purge_logs_before_date}
use knowledge_base.Index.BeforeDate.Aged.{IsAged, UpTo, unchanged, passed, loop-UpTo}

self : (n : LogName) → same_name n n ≡ true
unfolding same_name
self n = ap is_eq (compare_refl n.basename)

module _ (f : Files) (modified : LogName → ℕ) (purge_time : ℕ) where
  module _ (n : LogName) where
    named : Option LogName → Bool
    named none = false
    named (some x) = same_name n x

    differ : (x : LogName) → same_name n x ≡ false → some x ≢ some n
    unfolding named
    differ x s e =
        let same : same_name n x ≡ same_name n n = ap named e in
        absurd (ground (arith, same, s, self n))

    removed-Aged :
        (names removed kept : List LogName) (to_log chosen : Option LogName)
        → chosen ≡ some n
        → to_log ≢ some n
        → UpTo f modified purge_time names to_log chosen
        → Purged f n true names removed kept
        → All (IsAged f modified purge_time) removed
    removed-Aged _ removed kept _ _ e h (unchanged names to_log) purged = absurd (h e)
    removed-Aged _ _ _ _ _ e h (passed _ _ to_log to_log' chosen a c rest) (stopped x xs s k) = tt
    removed-Aged _ _ _ _ _ e h (passed _ _ to_log to_log' chosen a c rest) (held x xs b) = tt
    removed-Aged _ _ _ _ _ e h (passed _ _ to_log to_log' chosen a c rest) (last x xs s k b) =
        (a, tt)
    removed-Aged _ _ _ _ _ e h (passed _ _ to_log to_log' chosen a c rest)
          (before x xs removed kept s b further) =
        (
          a,
          removed-Aged xs removed kept to_log' chosen e
              (elim c [ inl same ↦ rw same h | inr same ↦ rw same (differ x s) ]) rest further,
        )

    Purged-split :
        (names removed kept : List LogName)
        → Purged f n true names removed kept
        → names ≡ removed ++ kept
    Purged-split _ _ _ at_end = refl
    Purged-split _ _ _ (stopped x xs s k) = refl
    Purged-split _ _ _ (held x xs b) = refl
    Purged-split _ _ _ (last x xs s k b) = refl
    Purged-split _ _ _ (before x xs removed kept s b rest) =
        ap (λ (l : List LogName). x ∷ l) (Purged-split xs removed kept rest)

  module _ (normalize : LogName → Option LogName) where
    -- The index loses aged files at its front, and each file that is deleted is free and unlisted.
    pub AgedPurge : Purge → Purge → Type 0
    AgedPurge p p' =
        (removed : List LogName) × (p.index.entries ≡ removed ++ p'.index.entries)
        × All (IsAged f modified purge_time) removed
        × ((new : List LogName) × (p'.deleted ≡ p.deleted ++ new)
            × All (λ (n : LogName). (busy f n ≡ false) × IsUnlisted normalize f p'.index n) new)

    AgedPurge-refl : (p : Purge) → AgedPurge p p
    unfolding AgedPurge
    AgedPurge-refl p = ([], refl, tt, ([], sym (append-nil p.deleted), tt))

    purged-Aged :
        (n : LogName) (p p' : Purge)
        → UpTo f modified purge_time p.index.entries none (some n)
        → Purging normalize f n true p p'
        → AgedPurge p p'
    unfolding AgedPurge
    purged-Aged n p p' up (removed, (purged, (new, grown, all))) = (
      removed,
      Purged-split n p.index.entries removed p'.index.entries purged,
      removed-Aged n p.index.entries removed p'.index.entries none (some n) refl (λ h. cc) up
          purged,
      (new, grown, all),
    )

    -- A purge up to a name that the index may not list.
    purge_logs-Aged :
        (is_relay_log : Bool) (p : Purge) (x : LogName) (xs : List LogName) (n : LogName)
        → ((m : LogName) → f.register_fails m ≡ false)
        → f.open_fails ≡ false
        → f.sync_fails ≡ false
        → f.remove_fails ≡ false
        → p.index.inited ≡ true
        → p.index.entries ≡ x ∷ xs
        → All (λ (m : LogName). normalize m ≡ some m) (x ∷ xs)
        → UpTo f modified purge_time p.index.entries none (some n)
        → AgedPurge p (purge_logs normalize f n true true is_relay_log p).0
    unfolding purge_logs conclude_purge AgedPurge
    purge_logs-Aged is_relay_log p x xs n registers opens syncs removes inited entries full up =
        elim (Option-cases (find_log_pos normalize p.index new_info (some n)).1) [
          | inl found ↦ purged-Aged n p (purge_logs normalize f n true true is_relay_log p).0 up (
              purge_logs-Purging normalize f n true true is_relay_log p x xs registers opens syncs
                removes inited entries full found)
          | inr (e, unknown) ↦ rw (purge_logs, unknown) (AgedPurge-refl p)
        ]

    purge_chosen-Aged :
        (is_relay_log : Bool) (p : Purge) (x : LogName) (xs : List LogName)
        (r : Option LogName × Option IndexError)
        → ((m : LogName) → f.register_fails m ≡ false)
        → f.open_fails ≡ false
        → f.sync_fails ≡ false
        → f.remove_fails ≡ false
        → p.index.inited ≡ true
        → p.index.entries ≡ x ∷ xs
        → All (λ (m : LogName). normalize m ≡ some m) (x ∷ xs)
        → UpTo f modified purge_time p.index.entries none r.0
        → AgedPurge p (purge_chosen normalize f modified purge_time is_relay_log p r).0
    unfolding purge_chosen
    purge_chosen-Aged is_relay_log p x xs (n, some e) ro o s re i en full up = AgedPurge-refl p
    purge_chosen-Aged is_relay_log p x xs (none, none) ro o s re i en full up = AgedPurge-refl p
    purge_chosen-Aged is_relay_log p x xs (some n, none) ro o s re i en full up =
        purge_logs-Aged is_relay_log p x xs n ro o s re i en full up

    chosen :
        (i : Index) (r : LogInfo × Option IndexError) (x : LogName) (xs : List LogName)
        → i.inited ≡ true
        → i.entries ≡ x ∷ xs
        → All (λ (m : LogName). normalize m ≡ some m) (x ∷ xs)
        → IsAt i r.0 0 x xs
        → r.1 ≡ none
        → UpTo f modified purge_time i.entries none
            (choose_to_log normalize f modified purge_time i r).0
    unfolding choose_to_log
    chosen i (l, some e) x xs opened entries full at quiet = cc
    chosen i (l, none) x xs opened entries full at quiet = rw (sym entries) at (
        loop-UpTo f modified purge_time normalize (suc (length i.entries)) i l 0 x xs none
          (omega (arith, ap length entries)) opened full.1 at)

    -- The index is open, is not empty and holds full names, and the files of the index and of the
    -- registered names can be written. Then an expiry by date takes from the front of the index only
    -- files that are not written to and of which each either does not exist or is older than the date
    -- and in no thread's use; the rest stays in its order. Each file that it deletes is neither
    -- active nor in use and is not listed in the index that it leaves.
    pub purge_logs_before_date-Aged :
        (is_relay_log : Bool) (p : Purge) (x : LogName) (xs : List LogName)
        → ((m : LogName) → f.register_fails m ≡ false)
        → f.open_fails ≡ false
        → f.sync_fails ≡ false
        → f.remove_fails ≡ false
        → p.index.inited ≡ true
        → p.index.entries ≡ x ∷ xs
        → All (λ (m : LogName). normalize m ≡ some m) (x ∷ xs)
        → AgedPurge p (purge_logs_before_date normalize f modified purge_time is_relay_log p).0
    unfolding purge_logs_before_date
    purge_logs_before_date-Aged is_relay_log p x xs ro o s re i en full =
        let (at, quiet) = find_log_pos-first normalize p.index new_info x xs i en full.0 in
        purge_chosen-Aged is_relay_log p x xs _ ro o s re i en full
          (chosen p.index (find_log_pos normalize p.index new_info none) x xs i en full at quiet)
