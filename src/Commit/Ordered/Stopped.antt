-- ===== src/Commit/Ordered/Stopped.antt =====
-- binlog_error_action = ABORT_SERVER: where the server is stopped.
use knowledge_base.Base.{
  ℕ, Bool, true, false, not, ◌&&◌, some, List, ◌++◌, ltb, leb, ◌==◌, if◌then◌else◌, ◌≡◌, refl, ap,
  ◌∙◌, arith, if_cases,
}
use knowledge_base.Cache.Storage.{Storage}
use knowledge_base.Commit.Group.{sync, Session, Binlog}
use knowledge_base.Commit.Group.Kept.{Server, Member}
use knowledge_base.Commit.Stages.{
  counted, synchronise, sync_binlog_file, raise_binlog_end_pos, end_pos,
}
use knowledge_base.Commit.Stages.Each.{engine_commits}
use knowledge_base.Commit.Stages.Commits.{no_commit}
use knowledge_base.Commit.Ordered.{
  Options, Answers, Enrolled, Outcome, stopped, handle_binlog_flush_or_sync_error, leave_stages,
  enter_commit_stage, sync_queue, enter_sync_stage,
}

module _ {S : Type 0} (st : Storage S) (extraction server_version unknown : ℕ) where
  abbrev Srv : Type 0
  Srv = Server st extraction server_version unknown

  abbrev Line : Type 0
  Line = List (Member st extraction server_version unknown)

  abbrev SameCommits : Srv → Srv → Type 0
  SameCommits b b' = engine_commits b'.calls ≡ engine_commits b.calls

  synchronise-SameCommits :
      (fails : Bool) (b : Srv) (q : Line)
      → SameCommits b (synchronise st extraction server_version unknown fails b q).0
  unfolding synchronise engine_commits
  synchronise-SameCommits fails b q =
      let silent = no_commit st extraction server_version unknown b sync refl in
      if_cases (λ (x : Srv × Line × Bool × Bool). SameCommits b x.0) b.is_open
        (λ _.
          if_cases (λ (x : Srv × Line × Bool × Bool). SameCommits b x.0) fails (λ _. silent)
            (λ _. silent))
        (λ _. refl)

  counted-calls :
      (period : ℕ) (b : Srv)
      → (counted st extraction server_version unknown false period b).calls ≡ b.calls
  unfolding counted
  counted-calls period b =
      if_cases (λ (c : Srv). c.calls ≡ b.calls) (not (period == 0)) (λ _. refl) (λ _. refl)

  sync_binlog_file-SameCommits :
      (period : ℕ) (fails : Bool) (b : Srv) (q : Line)
      → SameCommits b
          (sync_binlog_file st extraction server_version unknown false period fails b q).0
  unfolding sync_binlog_file
  sync_binlog_file-SameCommits period fails b q =
      let c = counted st extraction server_version unknown false period b in
      let same = ap engine_commits (counted-calls period b) in
      if_cases (λ (x : Srv × Line × Bool × Bool). SameCommits b x.0)
        (not (period == 0) && leb period c.sync_counter)
        (λ _. synchronise-SameCommits fails c q ∙ same) (λ _. same)

  raise-calls :
      (active : Bool) (position : ℕ) (b : Srv)
      → (raise_binlog_end_pos st extraction server_version unknown active position b).calls
        ≡ b.calls
  unfolding raise_binlog_end_pos
  raise-calls active position b =
      if_cases (λ (c : Srv). c.calls ≡ b.calls) (active && ltb b.binlog_end_pos position)
        (λ _. refl) (λ _. refl)

  sync_queue-SameCommits :
      (o : Options) (a : Answers) (flush_error : Bool) (total_bytes : ℕ) (b : Srv) (q : Line)
      → SameCommits b
          (sync_queue st extraction server_version unknown o a flush_error total_bytes b q).0
  unfolding sync_queue
  sync_queue-SameCommits o a flush_error total_bytes b q =
      let r =
        if not flush_error && ltb 0 total_bytes
        then sync_binlog_file st extraction server_version unknown false o.sync_period a.sync_fails
            b q
        else (b, q, false, false) in
      let same : SameCommits b r.0 =
        if_cases (λ (x : Srv × Line × Bool × Bool). SameCommits b x.0)
          (not flush_error && ltb 0 total_bytes)
          (λ _. sync_binlog_file-SameCommits o.sync_period a.sync_fails b q) (λ _. refl) in
      let position = end_pos st extraction server_version unknown r.1 in
      if_cases (λ (x : Srv × Line × Bool). SameCommits b x.0)
        (o.sync_period == 1 && not flush_error && not r.2)
        (λ _. ap engine_commits (raise-calls a.active position r.0) ∙ same) (λ _. same)

  leave_stages-stopped :
      (o : Options) (a : Answers) (do_rotate : Bool) (b : Srv) (q : Line)
      → o.abort_server ≡ true
      → leave_stages st extraction server_version unknown o a do_rotate true b q ≡ stopped b
  unfolding leave_stages handle_binlog_flush_or_sync_error
  leave_stages-stopped o a do_rotate b q h = rw h refl

  never : {P : Type 0} (x y : Bool) → y ≡ true → (x && not y) ≡ true → P
  never x y h e = absurd (ground (arith, h, e))

  and-false : (x : Bool) → (x && false) ≡ false
  and-false true = refl
  and-false false = refl

  enter_commit_stage-stopped :
      (o : Options) (a : Answers) (enrol : Srv → Enrolled st extraction server_version unknown)
      (do_rotate flush_error : Bool) (b : Srv) (q : Line)
      → o.abort_server ≡ true
      → enter_commit_stage st extraction server_version unknown o a enrol do_rotate flush_error true
          b q
        ≡ stopped b
  unfolding enter_commit_stage
  enter_commit_stage-stopped o a enrol do_rotate flush_error b q h =
      if_cases (λ (x : Outcome st extraction server_version unknown). x ≡ stopped b)
        (o.order_commits && not o.abort_server) (λ e. never o.order_commits o.abort_server h e)
        (λ _. rw (and-false (not flush_error)) (leave_stages-stopped o a do_rotate b q h))

  -- If binlog_error_action is ABORT_SERVER and the leader of the stage SYNC fails to synchronise the
  -- file, the server is stopped, and since the leader entered the stage no engine was asked to commit.
  pub enter_sync_stage-stopped :
      (o : Options) (a : Answers)
      (enrol_sync enrol_commit : Binlog st extraction server_version unknown
        → Enrolled st extraction server_version unknown)
      (do_rotate flush_error : Bool) (total_bytes : ℕ)
      (b found : Binlog st extraction server_version unknown)
      (q joined : List (Session st extraction server_version unknown))
      → o.abort_server ≡ true
      → enrol_sync b ≡ some (found, joined)
      → (sync_queue st extraction server_version unknown o a flush_error total_bytes found
          (q ++ joined)).2
        ≡ true
      → (b' : Binlog st extraction server_version unknown) × (enter_sync_stage st extraction
            server_version unknown o a enrol_sync enrol_commit do_rotate flush_error total_bytes b q
          ≡ stopped b')
        × (engine_commits b'.calls ≡ engine_commits found.calls)
  unfolding enter_sync_stage
  enter_sync_stage-stopped o a enrol_sync enrol_commit do_rotate flush_error total_bytes b found q
        joined h enrolled failed =
      let (b', q', _) =
        sync_queue st extraction server_version unknown o a flush_error total_bytes found
          (q ++ joined) in
      (
        b',
        rw (enrolled, enter_sync_stage, failed)
            (enter_commit_stage-stopped o a enrol_commit do_rotate flush_error b' q' h),
        sync_queue-SameCommits o a flush_error total_bytes found (q ++ joined),
      )
