-- ===== src/Index/Purge/Whole.antt =====
-- purge_logs as a whole.
use knowledge_base.Base.{
  suc, Bool, true, false, not, ◌&&◌, Option, none, some, List, [], ◌∷◌, ◌++◌, drop, length, map,
  All, if◌then◌else◌, ◌≡◌, refl, ap, ◌∙◌, arith, if_cases,
}
use knowledge_base.Index.{LogName, IndexError, file_error, LogInfo, new_info, find_log_pos}
use knowledge_base.Index.Listing.{find_log_pos-first}
use knowledge_base.Index.Purge.{
  Files, busy, Purge, adjust_offset, conclude_purge, remove_logs_from_index, purge_loop, after_loop,
  purge_from, purge_logs,
}
use knowledge_base.Index.Purge.Chosen.{Purged, at_end, stopped, held, last, before, loop-Chosen}
use knowledge_base.Index.Purge.Deleted.{IsUnlisted, conclude_purge-Deletes}

module _ (normalize : LogName → Option LogName) (f : Files) where
  module _ (to_log : LogName) (included : Bool) where
    Purged-free :
        (xs removed kept : List LogName)
        → Purged f to_log included xs removed kept
        → All (λ (n : LogName). busy f n ≡ false) removed
    Purged-free _ _ _ at_end = tt
    Purged-free _ _ _ (stopped x xs s k) = tt
    Purged-free _ _ _ (held x xs b) = tt
    Purged-free _ _ _ (last x xs s k b) = (b, tt)
    Purged-free _ _ _ (before x xs removed kept s b rest) = (b, Purged-free xs removed kept rest)

    -- What purge_logs may do to the index and the files.
    abbrev pub Purging : Purge → Purge → Type 0
    Purging p p' =
        (removed : List LogName) × (Purged f to_log included p.index.entries removed
            p'.index.entries
          × ((new : List LogName) × (p'.deleted ≡ p.deleted ++ new)
              × All (λ (n : LogName). (busy f n ≡ false) × IsUnlisted normalize f p'.index n) new))

    concluded :
        (e : Option IndexError) (p q : Purge) (removed : List LogName)
        → Purged f to_log included p.index.entries removed q.index.entries
        → All (λ (n : LogName). busy f n ≡ false) q.registered
        → q.deleted ≡ p.deleted
        → Purging p (conclude_purge normalize f e q).0
    concluded e p q removed chosen free d =
        let (same, (new, grown, all)) =
          conclude_purge-Deletes normalize f (λ (n : LogName). busy f n ≡ false) e q free in
        (
          removed,
          (rw same chosen, (new, grown ∙ ap (λ (l : List LogName). l ++ new) d, rw same all)),
        )

    -- The state whose index is cut.
    abbrev cut : Bool → LogInfo → Purge → Purge
    cut need_update_threads l p = record p {
      index = record p.index { entries = drop l.index_file_start_offset p.index.entries };
      threads =
          if need_update_threads
          then map (adjust_offset l.index_file_start_offset) p.threads
          else p.threads;
    }

    remove_logs_from_index-cut :
        (need_update_threads : Bool) (l : LogInfo) (p : Purge)
        → f.remove_fails ≡ false
        → remove_logs_from_index normalize f need_update_threads l p
          ≡ (cut need_update_threads l p, none)
    unfolding remove_logs_from_index
    remove_logs_from_index-cut need_update_threads l p removes =
        if_cases (λ (r : Purge × Option IndexError). r ≡ (cut need_update_threads l p, none))
          f.remove_fails (λ h. absurd (ground (arith, removes, h))) (λ _. refl)

    -- The loop chose `removed`.
    after_loop-Purging :
        (need_update_threads is_relay_log : Bool) (l : LogInfo) (removed : List LogName) (p : Purge)
        → f.sync_fails ≡ false
        → f.remove_fails ≡ false
        → Purged f to_log included p.index.entries removed
            (drop l.index_file_start_offset p.index.entries)
        → Purging p (after_loop normalize f need_update_threads is_relay_log (l, removed, none) p).0
    unfolding after_loop
    after_loop-Purging need_update_threads is_relay_log l removed p syncs removes chosen =
        let p' = record p { registered = removed } in
        let free = Purged-free p.index.entries removed _ chosen in
        if_cases (λ (r : Purge × Option IndexError). Purging p r.0) f.sync_fails
          (λ h. absurd (ground (arith, syncs, h)))
          (λ _. rw (remove_logs_from_index-cut need_update_threads l p' removes) (
            if_cases (λ (r : Purge × Option IndexError). Purging p r.0)
              (not is_relay_log && f.gtid_fails)
              (λ _.
                concluded (some file_error) p (cut need_update_threads l p') removed chosen free
                  refl)
              (λ _. concluded none p (cut need_update_threads l p') removed chosen free refl)))

    after_result-Purging :
        (need_update_threads is_relay_log : Bool) (r : LogInfo × List LogName × Option IndexError)
        (removed kept : List LogName) (p : Purge)
        → f.sync_fails ≡ false
        → f.remove_fails ≡ false
        → Purged f to_log included p.index.entries removed kept
        → drop r.0.index_file_start_offset p.index.entries ≡ kept
        → r.1 ≡ removed
        → r.2 ≡ none
        → Purging p (after_loop normalize f need_update_threads is_relay_log r p).0
    after_result-Purging need_update_threads is_relay_log (l, registered, e) removed kept p syncs
          removes chosen left reg quiet =
        rw (reg, quiet)
          (after_loop-Purging need_update_threads is_relay_log l removed p syncs removes
            (rw left chosen))

    -- The guards of purge_logs, where the name is found and the files work.
    started :
        (unknown empty : Option IndexError) (p : Purge) (z : Purge × Option IndexError)
        → unknown ≡ none
        → empty ≡ none
        → f.open_fails ≡ false
        → Purging p z.0
        → Purging p
            (elim unknown as (λ _. Purge × Option IndexError) [
              | some e ↦ conclude_purge normalize f (some e) p
              | none ↦
                  if f.open_fails
                  then conclude_purge normalize f (some file_error) p
                  else (elim empty as (λ _. Purge × Option IndexError) [
                    | some e ↦ conclude_purge normalize f (some e) (record p { registered = [] })
                    | none ↦ z
                  ])
            ]).0
    started none none p z a b o h =
        if_cases (λ (r : Purge × Option IndexError). Purging p r.0) f.open_fails
          (λ e. absurd (ground (arith, o, e))) (λ _. h)
    started (some e) empty p z a b o h = cc
    started none (some e) p z a b o h = cc

    -- The index is open, is not empty and holds full names, to_log is found in it, and the files of the
    -- index and of the registered names can be written. Then purge_logs takes a front part of the index: the
    -- files before to_log, with to_log itself if it is included, up to the first that is active or in use;
    -- the rest stays in the index, in its order. Each file that it deletes is neither active nor in use and
    -- is not listed in the index that it leaves, whatever the deletion itself reports.
    pub purge_logs-Purging :
        (need_update_threads is_relay_log : Bool) (p : Purge) (x : LogName) (xs : List LogName)
        → ((n : LogName) → f.register_fails n ≡ false)
        → f.open_fails ≡ false
        → f.sync_fails ≡ false
        → f.remove_fails ≡ false
        → p.index.inited ≡ true
        → p.index.entries ≡ x ∷ xs
        → All (λ (n : LogName). normalize n ≡ some n) (x ∷ xs)
        → (find_log_pos normalize p.index new_info (some to_log)).1 ≡ none
        → Purging p (purge_logs normalize f to_log included need_update_threads is_relay_log p).0
    unfolding purge_logs purge_from
    purge_logs-Purging need_update_threads is_relay_log p x xs registers opens syncs removes inited
          entries full found =
        let (at, quiet) =
          find_log_pos-first normalize p.index new_info x xs inited entries full.0 in
        let l = (find_log_pos normalize p.index new_info none).0 in
        let (removed, (kept, (chosen, reg, left, done_well))) =
          loop-Chosen f to_log included normalize registers (suc (length p.index.entries)) p.index l
            0 x xs [] (omega (arith, ap length entries)) inited full.1 at in
        started (find_log_pos normalize p.index new_info (some to_log)).1
          (find_log_pos normalize p.index new_info none).1 p _ found quiet opens
          (after_result-Purging need_update_threads is_relay_log
            (purge_loop normalize f (suc (length p.index.entries)) p.index to_log included l [])
            removed kept (record p { registered = [] }) syncs removes (rw entries chosen) left reg
            done_well)
