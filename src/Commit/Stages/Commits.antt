-- ===== src/Commit/Stages/Commits.antt =====
-- The commits in the engines that the stage COMMIT asks for.
use mathlib.Core.List.{append-nil}
use knowledge_base.Base.{
  ℕ, Bool, true, false, List, [], ◌∷◌, ◌++◌, All, if◌then◌else◌, ◌≡◌, refl, sym, ap, ◌∙◌, if_cases,
}
use knowledge_base.Cache.Storage.{Storage}
use knowledge_base.Commit.Group.{
  CommitFlags, Service, Call, ha_commit_low, update_commit_group, call, engine_commit, release_xid,
  update_max_committed,
}
use knowledge_base.Commit.Group.Kept.{
  Server, Member, Untouched, update_max_committed-Untouched, release_xid-quiet,
  engine_commit-commit_low,
}
use knowledge_base.Commit.Stages.{
  Queue, each, ids, commit_one, group_updated, process_commit_stage_queue,
}
use knowledge_base.Commit.Stages.Each.{
  engine_commits, engine_commits-append, gather, each-All, each-gather, each-same,
}

module _ {S : Type 0} (st : Storage S) (extraction server_version unknown : ℕ) where
  abbrev pub Srv : Type 0
  Srv = Server st extraction server_version unknown

  abbrev pub Thd : Type 0
  Thd = Member st extraction server_version unknown

  -- The sessions that ask the engines to commit.
  abbrev pub asks : Member st extraction server_version unknown → List ℕ
  asks s = if s.flags.commit_low then s.id ∷ [] else []

  asks_if :
      (x y : Bool) (n n' : ℕ)
      → y ≡ x
      → n' ≡ n
      → (if y then n' ∷ [] else []) ≡ (if x then n ∷ [] else [])
  asks_if x y n n' h k = cc

  asks-Untouched :
      (b : Srv) (s : Thd) (r : Srv × Thd)
      → Untouched st extraction server_version unknown b s r
      → asks r.1 ≡ asks s
  asks-Untouched b s r (_, _, f, i, _) =
      asks_if s.flags.commit_low r.1.flags.commit_low s.id r.1.id
        (ap (λ (x : CommitFlags). x.commit_low) f) i

  -- A call that is no commit in the engines.
  pub no_commit :
      (b : Srv) (c : Call)
      → engine_commits (c ∷ []) ≡ []
      → engine_commits (b.calls ++ (c ∷ [])) ≡ engine_commits b.calls
  no_commit b c h =
      engine_commits-append b.calls (c ∷ [])
      ∙ ap (λ (l : List ℕ). engine_commits b.calls ++ l) h
      ∙ append-nil (engine_commits b.calls)

  engine_commit-commits :
      (b : Srv) (s : Thd)
      → engine_commits (engine_commit st extraction server_version unknown b s).0.calls
        ≡ engine_commits b.calls ++ (s.id ∷ [])
  unfolding engine_commit engine_commits
  engine_commit-commits b s = engine_commits-append b.calls (ha_commit_low s.id ∷ [])

  committed-commits :
      (b : Srv) (s : Thd)
      → engine_commits
          (if s.flags.commit_low
            then engine_commit st extraction server_version unknown b s
            else (b, s)).0.calls
        ≡ engine_commits b.calls ++ asks s
  committed-commits b s = by_flag s.flags.commit_low refl
    where
      by_flag :
          (x : Bool)
          → x ≡ s.flags.commit_low
          → engine_commits
              (if x then engine_commit st extraction server_version unknown b s else (b, s)).0.calls
            ≡ engine_commits b.calls ++ (if x then s.id ∷ [] else [])
      by_flag true h = engine_commit-commits b s
      by_flag false h = sym (append-nil (engine_commits b.calls))

  commit_one-commits :
      (b : Srv) (s : Thd)
      → engine_commits (commit_one st extraction server_version unknown b s).0.calls
        ≡ engine_commits b.calls ++ asks s
  unfolding commit_one
  commit_one-commits b s =
      let (b', s') = update_max_committed st extraction server_version unknown b s in
      let kept = update_max_committed-Untouched st extraction server_version unknown b s in
      committed-commits b' s'
      ∙ ap (λ (l : List ℕ). l ++ asks s') (ap engine_commits kept.0)
      ∙ ap (λ (l : List ℕ). engine_commits b.calls ++ l) (asks-Untouched b s (b', s') kept)

  commit_one-commit_low :
      (b : Srv) (s : Thd)
      → s.service.keeps_commit_low ≡ false
      → (commit_one st extraction server_version unknown b s).1.flags.commit_low ≡ false
  unfolding commit_one
  commit_one-commit_low b s h =
      let (b', s') = update_max_committed st extraction server_version unknown b s in
      let (_, _, _, _, k) =
        update_max_committed-Untouched st extraction server_version unknown b s in
      if_cases (λ (r : Srv × Thd). r.1.flags.commit_low ≡ false) s'.flags.commit_low
        (λ _.
          engine_commit-commit_low st extraction server_version unknown b' s'
          ∙ ap (λ (x : Service). x.keeps_commit_low) k
          ∙ h)
        (λ e. e)

  group_updated-commit_low :
      (q : Queue st extraction server_version unknown)
      → All (λ (s : Thd). s.flags.commit_low ≡ false) q
      → All
          (λ (s : Thd). s.flags.commit_low ≡ false)
          (group_updated st extraction server_version unknown q)
  unfolding group_updated
  group_updated-commit_low [] h = tt
  group_updated-commit_low (s ∷ q) h = (h.0, group_updated-commit_low q h.1)

  pub process-commits :
      (b : Srv) (q : Queue st extraction server_version unknown)
      → engine_commits (process_commit_stage_queue st extraction server_version unknown b q).0.calls
        ≡ engine_commits b.calls ++ gather st extraction server_version unknown asks q
  unfolding process_commit_stage_queue engine_commits
  process-commits b q =
      let (b', q') =
        each st extraction server_version unknown (commit_one st extraction server_version unknown)
          b q in
      let update = update_commit_group (ids st extraction server_version unknown q') in
      each-same st extraction server_version unknown (λ (x : Srv). engine_commits x.calls)
        (release_xid st extraction server_version unknown)
        (λ x s. ap engine_commits (release_xid-quiet st extraction server_version unknown x s).0)
        (call st extraction server_version unknown update b')
        (group_updated st extraction server_version unknown q')
      ∙ no_commit b' update refl
      ∙ each-gather st extraction server_version unknown engine_commits asks
          (commit_one st extraction server_version unknown) commit_one-commits b q

  abbrev pub IsCommitted : Thd → Type 0
  IsCommitted s = s.flags.commit_low ≡ false

  pub process-IsCommitted :
      (b : Srv) (q : Queue st extraction server_version unknown)
      → All (λ (s : Thd). s.service.keeps_commit_low ≡ false) q
      → All IsCommitted (process_commit_stage_queue st extraction server_version unknown b q).1
  unfolding process_commit_stage_queue
  process-IsCommitted b q h =
      let (b', q') =
        each st extraction server_version unknown (commit_one st extraction server_version unknown)
          b q in
      each-All st extraction server_version unknown IsCommitted IsCommitted
        (release_xid st extraction server_version unknown)
        (λ x s k. (release_xid-quiet st extraction server_version unknown x s).1 ∙ k)
        (call st extraction server_version unknown
          (update_commit_group (ids st extraction server_version unknown q')) b')
        (group_updated st extraction server_version unknown q')
        (group_updated-commit_low q' (
          each-All st extraction server_version unknown
            (λ (s : Thd). s.service.keeps_commit_low ≡ false) IsCommitted
            (commit_one st extraction server_version unknown) commit_one-commit_low b q h))
