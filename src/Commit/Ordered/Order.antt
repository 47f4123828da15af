-- ===== src/Commit/Ordered/Order.antt =====
-- The order and the number of the commits in the engines.
use knowledge_base.Base.{
  ℕ, Bool, false, not, ◌&&◌, Option, none, some, List, [], ◌∷◌, ◌++◌, All, if◌then◌else◌, ◌≡◌, refl,
  ap, ◌∙◌, arith, if_cases,
}
use knowledge_base.Cache.Storage.{Storage}
use knowledge_base.Commit.Group.{
  is_none, is_engine_error, CommitFlags, Session, Binlog, after_sync, after_commit,
  update_on_commit, update_on_rollback, run_after_commit, finish_gtid, finish_commit,
  finish_engines, cleared, update_max_committed,
}
use knowledge_base.Commit.Group.Kept.{
  Server, Member, update_max_committed-Untouched, release_xid-quiet, run_after_commit-quiet,
}
use knowledge_base.Commit.Stages.{
  Queue, each, call_after_sync_hook, process_commit_stage_queue, process_after_commit_stage_queue,
}
use knowledge_base.Commit.Stages.Each.{engine_commits, gather, each-All, each-same}
use knowledge_base.Commit.Stages.Commits.{asks, no_commit, process-commits, process-IsCommitted}
use knowledge_base.Commit.Ordered.{Answers, commit_queue}

module _ {S : Type 0} (st : Storage S) (extraction server_version unknown : ℕ) where
  abbrev Srv : Type 0
  Srv = Server st extraction server_version unknown

  abbrev Thd : Type 0
  Thd = Member st extraction server_version unknown

  abbrev IsCommitted : Thd → Type 0
  IsCommitted s = s.flags.commit_low ≡ false

  run_after_commit-commits :
      (b : Srv) (s : Thd)
      → engine_commits (run_after_commit st extraction server_version unknown b s).0.calls
        ≡ engine_commits b.calls
  unfolding run_after_commit engine_commits
  run_after_commit-commits b s =
      if_cases (λ (r : Srv × Thd). engine_commits r.0.calls ≡ engine_commits b.calls)
        (s.flags.run_hooks && not (is_engine_error s.flusher.commit_error))
        (λ _. no_commit st extraction server_version unknown b (after_commit s.id) refl) (λ _. refl)

  finish_gtid-commits :
      (b : Srv) (s : Thd)
      → engine_commits (finish_gtid st extraction server_version unknown b s).calls
        ≡ engine_commits b.calls
  unfolding finish_gtid engine_commits
  finish_gtid-commits b s =
      if_cases (λ (x : Srv). engine_commits x.calls ≡ engine_commits b.calls) s.owns_gtid
        (λ _.
          if_cases (λ (x : Srv). engine_commits x.calls ≡ engine_commits b.calls)
            (is_none s.flusher.commit_error)
            (λ _. no_commit st extraction server_version unknown b (update_on_commit s.id) refl)
            (λ _. no_commit st extraction server_version unknown b (update_on_rollback s.id) refl))
        (λ _. refl)

  cleared-flags :
      (b : Srv) (s : Thd) → (cleared st extraction server_version unknown b s).flags ≡ s.flags
  unfolding cleared
  cleared-flags b s = if_cases (λ (x : Thd). x.flags ≡ s.flags) b.is_open (λ _. refl) (λ _. refl)

  finish_engines-commits :
      (b : Srv) (s : Thd)
      → IsCommitted s
      → engine_commits (finish_engines st extraction server_version unknown b s).0.calls
        ≡ engine_commits b.calls
  unfolding finish_engines
  finish_engines-commits b s h =
      if_cases (λ (r : Srv × Thd). engine_commits r.0.calls ≡ engine_commits b.calls)
        s.flags.commit_low (λ e. absurd (ground (arith, h, e)))
        (λ _. ap engine_commits (release_xid-quiet st extraction server_version unknown b s).0)

  -- finish_commit of a session that does not ask the engines.
  finish_commit-commits :
      (b : Srv) (s : Thd)
      → IsCommitted s
      → engine_commits (finish_commit st extraction server_version unknown b s).0.calls
        ≡ engine_commits b.calls
  unfolding finish_commit
  finish_commit-commits b s h =
      let c = cleared st extraction server_version unknown b s in
      let (b', s') = update_max_committed st extraction server_version unknown b c in
      let kept = update_max_committed-Untouched st extraction server_version unknown b c in
      let (b'', s'') = finish_engines st extraction server_version unknown b' s' in
      finish_gtid-commits b'' s''
      ∙ finish_engines-commits b' s'
          (ap (λ (x : CommitFlags). x.commit_low) (kept.2 ∙ cleared-flags b s) ∙ h)
      ∙ ap engine_commits kept.0

  All-map :
      (P Q : Thd → Type 0)
      → ((s : Thd) → P s → Q s)
      → (q : Queue st extraction server_version unknown) → All P q
      → All Q q
  All-map P Q f [] h = tt
  All-map P Q f (s ∷ q) h = (f s h.0, All-map P Q f q h.1)

  call_after_sync_hook-commits :
      (hook : Option Bool) (b : Srv) (q : Queue st extraction server_version unknown)
      → engine_commits (call_after_sync_hook st extraction server_version unknown hook b q).0.calls
        ≡ engine_commits b.calls
  unfolding call_after_sync_hook engine_commits
  call_after_sync_hook-commits none b q = refl
  call_after_sync_hook-commits (some fails) b q =
      no_commit st extraction server_version unknown b (after_sync _) refl

  -- The commit of a queue requests a commit of the engines for exactly the sessions that have commit_low,
  -- each once and in the order of the queue, and this whatever errors the flush and the synchronisation
  -- had: a session whose flush failed is committed in the engines like the others. If ha_commit_low clears
  -- commit_low, then finish_commit, which each session runs later, in whatever state of the log,
  -- requests no further commit of the engines.
  pub commit_queue-in_order :
      (a : Answers) (flush_error sync_error : Bool)
      (b : Binlog st extraction server_version unknown)
      (q : Queue st extraction server_version unknown)
      → All
          (λ (s : Session st extraction server_version unknown). s.service.keeps_commit_low ≡ false)
          q
      → let (b', q', _) =
          commit_queue st extraction server_version unknown a flush_error sync_error b q in
        (engine_commits b'.calls
          ≡ engine_commits b.calls
            ++ gather st extraction server_version unknown
                (asks st extraction server_version unknown)
                q)
        × All
            (λ (s : Session st extraction server_version unknown).
              (later : Binlog st extraction server_version unknown)
              → engine_commits (finish_commit st extraction server_version unknown later s).0.calls
                ≡ engine_commits later.calls)
            q'
  unfolding commit_queue process_after_commit_stage_queue
  commit_queue-in_order a flush_error sync_error b q h =
      let hooked =
        if not flush_error && not sync_error
        then call_after_sync_hook st extraction server_version unknown a.after_sync b q
        else (b, sync_error) in
      let (committed, q') =
        process_commit_stage_queue st extraction server_version unknown hooked.0 q in
      (
        each-same st extraction server_version unknown (λ (x : Srv). engine_commits x.calls)
              (run_after_commit st extraction server_version unknown) run_after_commit-commits
              committed q'
            ∙ process-commits st extraction server_version unknown hooked.0 q
            ∙ ap
                (λ (l : List ℕ).
                  l
                  ++ gather st extraction server_version unknown
                      (asks st extraction server_version unknown) q)
                (if_cases (λ (r : Srv × Bool). engine_commits r.0.calls ≡ engine_commits b.calls)
                  (not flush_error && not sync_error)
                  (λ _. call_after_sync_hook-commits a.after_sync b q) (λ _. refl)),
        All-map IsCommitted _ (λ s k later. finish_commit-commits later s k)
            (each st extraction server_version unknown
              (run_after_commit st extraction server_version unknown) committed q').1
            (each-All st extraction server_version unknown IsCommitted IsCommitted
              (run_after_commit st extraction server_version unknown)
              (λ x s k. (run_after_commit-quiet st extraction server_version unknown x s).2 ∙ k)
              committed q' (process-IsCommitted st extraction server_version unknown hooked.0 q h)),
      )
