-- ===== src/Commit/Stages/Sync.antt =====
-- sync_binlog: how often the file is synchronised.
use knowledge_base.Base.{
  ℕ, suc, ◌+◌, ◌*◌, ◌<◌, Bool, true, false, List, [], ◌∷◌, ◌++◌, length, leb, ◌==◌, if◌then◌else◌,
  ◌≡◌, refl, ◌∙◌, ◌⊎◌, inl, inr, arith, if_cases,
}
use knowledge_base.Cache.Storage.{Storage}
use knowledge_base.Commit.Group.{Call, sync, Binlog}
use knowledge_base.Commit.Stages.{Queue, next_count, sync_binlog_file}

unfoldable pub is_sync : Call → Bool
is_sync sync = true
is_sync _ = false

unfoldable pub syncs : List Call → ℕ
unfolding is_sync
syncs [] = 0
syncs (c ∷ cs) = (if is_sync c then 1 else 0) + syncs cs

syncs-append : (cs : List Call) → syncs (cs ++ (sync ∷ [])) ≡ syncs cs + 1
unfolding syncs
syncs-append [] = refl
syncs-append (c ∷ cs) = omega (arith, syncs-append cs)

module _ {S : Type 0} (st : Storage S) (extraction server_version unknown : ℕ) where
  abbrev Srv : Type 0
  Srv = Binlog st extraction server_version unknown

  abbrev Line : Type 0
  Line = Queue st extraction server_version unknown

  -- The stage SYNC for one group after the other, with whether the synchronisation would fail.
  unfoldable pub sync_rounds : ℕ → Srv → List (Line × Bool) → Srv
  sync_rounds sync_period b [] = b
  sync_rounds sync_period b ((q, fails) ∷ rest) =
      sync_rounds sync_period
        (sync_binlog_file st extraction server_version unknown false sync_period fails b q).0 rest

  above_zero : (p n : ℕ) → n < p → (p == 0) ≡ false
  above_zero p n h = ground arith

  reached : (p n : ℕ) → p < 4294967296 → n < p → leb p (next_count n) ≡ true → n + 1 ≡ p
  reached p n small below due = ground arith

  not_reached :
      (p n : ℕ) {m : ℕ}
      → p < 4294967296
      → n < p
      → leb p (next_count n) ≡ false
      → (next_count n ≡ n + 1) × (next_count n < p) × (m ≡ m)
  not_reached p n small below early = (ground arith, ground arith, refl)

  -- One round: the counter grows, or the file is synchronised and the counter starts anew.
  abbrev Turned : ℕ → Srv → Srv → Type 0
  Turned p b b' =
      (b'.is_open ≡ b.is_open)
      × (((b'.sync_counter ≡ b.sync_counter + 1)
            × (b'.sync_counter < p)
            × (syncs b'.calls ≡ syncs b.calls))
          ⊎ ((b'.sync_counter ≡ 0)
              × (b.sync_counter + 1 ≡ p)
              × (syncs b'.calls ≡ syncs b.calls + 1)))

  sync_binlog_file-Turned :
      (p : ℕ) (fails : Bool) (b : Srv) (q : Line)
      → b.is_open ≡ true
      → p < 4294967296
      → b.sync_counter < p
      → Turned p b (sync_binlog_file st extraction server_version unknown false p fails b q).0
  unfolding sync_binlog_file
  sync_binlog_file-Turned p fails b q opened small below = rw (above_zero p b.sync_counter below) (
      if_cases (λ (x : Srv × Line × Bool × Bool). Turned p b x.0)
        (leb p (next_count b.sync_counter))
        (λ due.
          if_cases (λ (x : Srv × Line × Bool × Bool). Turned p b x.0) b.is_open
            (λ _.
              if_cases (λ (x : Srv × Line × Bool × Bool). Turned p b x.0) fails
                (λ _. (
                  refl,
                  inr (refl, reached p b.sync_counter small below due, syncs-append b.calls),
                ))
                (λ _. (
                  refl,
                  inr (refl, reached p b.sync_counter small below due, syncs-append b.calls),
                )))
            (λ shut. absurd (ground (arith, opened, shut))))
        (λ early. (refl, inl (not_reached p b.sync_counter small below early))))

  -- A file that is open, and a period p that is not 0 and fits the unsigned counter, which is below it:
  -- over any groups that reach the stage SYNC with bytes to synchronise, the file is synchronised once
  -- in each p groups, whether or not the calls succeed: if it is done k times, the groups and the old
  -- value of sync_counter make k * p and its new value, which is below p again.
  pub sync_rounds-Periodic :
      (p : ℕ) (b : Binlog st extraction server_version unknown)
      (groups : List (Queue st extraction server_version unknown × Bool))
      → b.is_open ≡ true
      → p < 4294967296
      → b.sync_counter < p
      → let b' = sync_rounds p b groups in
        (b'.sync_counter < p)
        × ((k : ℕ) × (syncs b'.calls ≡ syncs b.calls + k)
            × (b.sync_counter + length groups ≡ k * p + b'.sync_counter))
  unfolding sync_rounds
  sync_rounds-Periodic p b [] opened small below = (below, (0, omega arith, omega arith))
  sync_rounds-Periodic p b ((q, fails) ∷ rest) opened small below =
      let b' = (sync_binlog_file st extraction server_version unknown false p fails b q).0 in
      let (same, turn) = sync_binlog_file-Turned p fails b q opened small below in
      elim turn [
        | inl (count, less, none_new) ↦
            let (last, (k, new, all)) = sync_rounds-Periodic p b' rest (same ∙ opened) small less in
            (last, (k, omega (arith, new, none_new), omega (arith, all, count)))
        | inr (count, full, one_new) ↦
            let (last, (k, new, all)) =
              sync_rounds-Periodic p b' rest (same ∙ opened) small (omega (arith, count, below)) in
            (last, (suc k, omega (arith, new, one_new), grind (arith, all, count, full)))
      ]
