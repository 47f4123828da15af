-- ===== src/Commit/Recover/Result.antt =====
-- The result of binlog_recover on a log with any events, those with a repeated number included.
use knowledge_base.Base.{ℕ, Bool, false, ◌&&◌, List, [], ◌∷◌, All, ltb, ◌≡◌, refl}
use knowledge_base.Commit.Recover.{Read, Scan, visit, advance_valid_pos, scan, binlog_recover}

abbrev pub IsReadable : List Read → Type 0
IsReadable reads = All (λ (r : Read). r.has_error ≡ false) reads

scan-quiet : (reads : List Read) (s : Scan) → IsReadable reads → (scan reads s).1 ≡ false
unfolding scan
scan-quiet [] s h = refl
scan-quiet (r ∷ rs) s h = rw h.0 (scan-quiet rs (advance_valid_pos r (visit r.event s).0) h.1)

-- While the iterator has no error, the result is only that of ha_recover: an error that the switch found,
-- such as a transaction number that the log holds twice, is not reported.
pub binlog_recover-unreported :
    (total_ha_2pc : ℕ) (ha_recover : List ℕ → Bool) (reads : List Read) (valid_pos : ℕ)
    → IsReadable reads
    → (binlog_recover total_ha_2pc ha_recover reads valid_pos).1 ≡ (
        ltb 1 total_ha_2pc
        && ha_recover
            (scan reads
              (record { in_transaction = false; xids = []; valid_pos = valid_pos })).0.xids)
unfolding binlog_recover
binlog_recover-unreported total_ha_2pc ha_recover reads valid_pos h = rw (scan-quiet reads _ h) refl
