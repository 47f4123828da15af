-- ===== src/Commit/Group/Kept.antt =====
-- What the operations on one session leave as it was.
use knowledge_base.Base.{
  ℕ, ℤ, pos, ◌+ℤ◌, ◌-ℤ◌, +ℤ_parts, -ℤ_parts, eq_of_parts, eqb_ℤ, false, not, ◌&&◌, Option, none,
  some, if◌then◌else◌, ◌≡◌, refl, arith, if_cases,
}
use knowledge_base.Tracking.Thd.{Thd}
use knowledge_base.Tracking.Clock.{seq_uninit}
use knowledge_base.Tracking.Tracker
use knowledge_base.Tracking.Tracker.{Tracker}
use knowledge_base.Cache.Storage.{Storage}
use knowledge_base.Commit.Group.{
  is_none, is_engine_error, Session, Binlog, dec_prep_xids, update_max_committed, engine_commit,
  run_after_commit, release_xid, finish_gtid,
}

module _ {S : Type 0} (st : Storage S) (extraction server_version unknown : ℕ) where
  abbrev pub Server : Type 0
  Server = Binlog st extraction server_version unknown

  abbrev pub Member : Type 0
  Member = Session st extraction server_version unknown

  -- Neither the calls nor the counter, the flags, the name or the services change.
  abbrev pub Untouched : Server → Member → Server × Member → Type 0
  Untouched b s r =
      (r.0.calls ≡ b.calls)
      × (r.0.prep_xids ≡ b.prep_xids)
      × (r.1.flags ≡ s.flags)
      × (r.1.id ≡ s.id)
      × (r.1.service ≡ s.service)

  updated-Untouched :
      (b : Server) (s : Member) (r : Option (Tracker × Thd))
      → Untouched b s (elim r [
        | none ↦ (b, s)
        | some x ↦ (
          record b { log = record b.log { tracker = x.0 } },
          record s { flusher = record s.flusher { thd = x.1 } },
        )
      ])
  updated-Untouched b s none = (refl, refl, refl, refl, refl)
  updated-Untouched b s (some x) = (refl, refl, refl, refl, refl)

  pub update_max_committed-Untouched :
      (b : Server) (s : Member)
      → Untouched b s (update_max_committed st extraction server_version unknown b s)
  unfolding update_max_committed
  update_max_committed-Untouched b s =
      if_cases (λ (r : Server × Member). Untouched b s r)
        (eqb_ℤ s.flusher.thd.sequence_number seq_uninit) (λ _. (refl, refl, refl, refl, refl))
        (λ _. updated-Untouched b s (Tracker.update_max_committed b.log.tracker s.flusher.thd))

  abbrev pub weight : Member → ℕ
  weight s = if s.flags.xid_written then 1 else 0

  abbrev pub Counted : Server → ℕ → Server × Member → Type 0
  Counted b n r = r.0.prep_xids +ℤ pos n ≡ b.prep_xids +ℤ pos (weight r.1)

  taken_off : (p : ℤ) → p -ℤ pos 1 +ℤ pos 1 ≡ p +ℤ pos 0
  taken_off p =
      eq_of_parts _ _
        (omega (arith, +ℤ_parts (p -ℤ pos 1) (pos 1), +ℤ_parts p (pos 0), -ℤ_parts p (pos 1)))

  pub release_xid-Balanced :
      (b : Server) (s : Member)
      → let r = release_xid st extraction server_version unknown b s in
        Counted b (weight s) r × (r.1.flags.xid_written ≡ false)
  unfolding release_xid dec_prep_xids
  release_xid-Balanced b s =
      if_cases (λ (r : Server × Member). Counted b (weight s) r × (r.1.flags.xid_written ≡ false))
        s.flags.xid_written (λ h. (rw h (taken_off b.prep_xids), refl)) (λ h. (refl, h))

  pub release_xid-quiet :
      (b : Server) (s : Member)
      → let r = release_xid st extraction server_version unknown b s in
        (r.0.calls ≡ b.calls)
        × (r.1.flags.commit_low ≡ s.flags.commit_low)
        × (r.1.service ≡ s.service)
        × (r.1.id ≡ s.id)
  unfolding release_xid dec_prep_xids
  release_xid-quiet b s =
      if_cases
        (λ (r : Server × Member).
          (r.0.calls ≡ b.calls)
          × (r.1.flags.commit_low ≡ s.flags.commit_low)
          × (r.1.service ≡ s.service)
          × (r.1.id ≡ s.id))
        s.flags.xid_written (λ _. (refl, refl, refl, refl)) (λ _. (refl, refl, refl, refl))

  pub engine_commit-weight :
      (b : Server) (s : Member)
      → weight (engine_commit st extraction server_version unknown b s).1 ≡ weight s
  unfolding engine_commit
  engine_commit-weight b s =
      if_cases (λ (m : Member). weight m ≡ weight s) s.service.commit_fails (λ _. refl) (λ _. refl)

  pub engine_commit-commit_low :
      (b : Server) (s : Member)
      → (engine_commit st extraction server_version unknown b s).1.flags.commit_low
        ≡ s.service.keeps_commit_low
  unfolding engine_commit
  engine_commit-commit_low b s =
      if_cases (λ (m : Member). m.flags.commit_low ≡ s.service.keeps_commit_low)
        s.service.commit_fails (λ _. refl) (λ _. refl)

  -- What the hook changes: the calls, and run_hooks.
  pub run_after_commit-quiet :
      (b : Server) (s : Member)
      → let r = run_after_commit st extraction server_version unknown b s in
        (r.0.prep_xids ≡ b.prep_xids)
        × (r.1.flags.xid_written ≡ s.flags.xid_written)
        × (r.1.flags.commit_low ≡ s.flags.commit_low)
  unfolding run_after_commit
  run_after_commit-quiet b s =
      if_cases
        (λ (r : Server × Member).
          (r.0.prep_xids ≡ b.prep_xids)
          × (r.1.flags.xid_written ≡ s.flags.xid_written)
          × (r.1.flags.commit_low ≡ s.flags.commit_low))
        (s.flags.run_hooks && not (is_engine_error s.flusher.commit_error))
        (λ _. (refl, refl, refl)) (λ _. (refl, refl, refl))

  pub finish_gtid-prep_xids :
      (b : Server) (s : Member)
      → (finish_gtid st extraction server_version unknown b s).prep_xids ≡ b.prep_xids
  unfolding finish_gtid
  finish_gtid-prep_xids b s =
      if_cases (λ (x : Server). x.prep_xids ≡ b.prep_xids) s.owns_gtid
        (λ _.
          if_cases (λ (x : Server). x.prep_xids ≡ b.prep_xids) (is_none s.flusher.commit_error)
            (λ _. refl) (λ _. refl))
        (λ _. refl)
