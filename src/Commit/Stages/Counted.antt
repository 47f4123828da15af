-- ===== src/Commit/Stages/Counted.antt =====
-- The counter of prepared XIDs through the stages FLUSH and COMMIT.
use knowledge_base.Base.{
  ℕ, ℤ, pos, ◌+◌, ◌+ℤ◌, +ℤ_parts, eq_of_parts, pos_part, neg_part, Bool, false, not, ◌&&◌, [], ◌∷◌,
  All, ltb, if◌then◌else◌, ◌≡◌, refl, sym, ap, ◌∙◌, arith, if_cases,
}
use knowledge_base.Cache.Storage.{Storage}
use knowledge_base.Cache.Flush.{mngr_flush}
use knowledge_base.Commit.Group.{
  CommitFlags, call, inc_prep_xids, update_commit_group, flush_thread_caches, engine_commit,
  release_xid, update_max_committed,
}
use knowledge_base.Commit.Group.Kept.{
  Server, Member, weight, Counted, update_max_committed-Untouched, release_xid-Balanced,
  engine_commit-weight,
}
use knowledge_base.Commit.Stages.{
  Queue, each, ids, flush_queue, commit_one, group_updated, process_commit_stage_queue,
}
use knowledge_base.Commit.Stages.Each.{written, each-All, each-Balanced, balance_add}

module _ {S : Type 0} (st : Storage S) (extraction server_version unknown : ℕ) where
  abbrev Srv : Type 0
  Srv = Server st extraction server_version unknown

  abbrev Thd : Type 0
  Thd = Member st extraction server_version unknown

  abbrev pub IsUnwritten : Thd → Type 0
  IsUnwritten s = s.flags.xid_written ≡ false

  unwritten-weight : (s : Thd) → IsUnwritten s → weight st extraction server_version unknown s ≡ 0
  unwritten-weight s h = ground (arith, h)

  +ℤ_zero : (p : ℤ) → p +ℤ pos 0 ≡ p
  +ℤ_zero p = eq_of_parts _ _ (omega (arith, +ℤ_parts p (pos 0)))

  unwritten :
      (p : ℤ) (s : Thd)
      → IsUnwritten s
      → p +ℤ pos 0 ≡ p +ℤ pos (weight st extraction server_version unknown s)
  unwritten p s h = ap (λ (n : ℕ). p +ℤ pos n) (sym (unwritten-weight s h))

  flush_thread_caches-Counted :
      (b : Srv) (s : Thd)
      → IsUnwritten s
      → let (b', s', _, _) = flush_thread_caches st extraction server_version unknown b s in
        b'.prep_xids +ℤ pos 0 ≡ b.prep_xids +ℤ pos (weight st extraction server_version unknown s')
  unfolding flush_thread_caches inc_prep_xids
  flush_thread_caches-Counted b s h =
      let (m, r) =
        mngr_flush st extraction server_version unknown s.service.stmt_io s.service.trx_io 0
          s.cache_mngr b.log s.flusher false in
      if_cases
        (λ (x : Srv × Thd × Bool × ℕ).
          x.0.prep_xids +ℤ pos 0
          ≡ b.prep_xids +ℤ pos (weight st extraction server_version unknown x.1))
        (not r.error && ltb 0 r.bytes_written)
        (λ _.
          if_cases
            (λ (x : Srv × Thd × Bool × ℕ).
              x.0.prep_xids +ℤ pos 0
              ≡ b.prep_xids +ℤ pos (weight st extraction server_version unknown x.1))
            r.wrote_xid (λ _. +ℤ_zero (b.prep_xids +ℤ pos 1)) (λ _. unwritten b.prep_xids s h))
        (λ _. unwritten b.prep_xids s h)

  pub flush_queue-Counted :
      (b : Srv) (q : Queue st extraction server_version unknown) (error : Bool) (bytes : ℕ)
      → All IsUnwritten q
      → let r = flush_queue st extraction server_version unknown b q error bytes in
        r.binlog.prep_xids +ℤ pos 0
        ≡ b.prep_xids +ℤ pos (written st extraction server_version unknown r.queue)
  unfolding flush_queue
  flush_queue-Counted b [] error bytes h = refl
  flush_queue-Counted b (s ∷ q) error bytes h =
      let (b', s', failed, n) = flush_thread_caches st extraction server_version unknown b s in
      let r =
        flush_queue st extraction server_version unknown b' q (if error then failed else error)
          (bytes + n) in
      balance_add b.prep_xids b'.prep_xids r.binlog.prep_xids 0
        (weight st extraction server_version unknown s') 0
        (written st extraction server_version unknown r.queue) (flush_thread_caches-Counted b s h.0)
        (flush_queue-Counted b' q (if error then failed else error) (bytes + n) h.1)

  pub carried : (p p' : ℤ) (w w' : ℕ) → p' ≡ p → w' ≡ w → p' +ℤ pos w ≡ p +ℤ pos w'
  carried p p' w w' h k = cc

  pub engine_commit-prep_xids :
      (b : Srv) (s : Thd)
      → (engine_commit st extraction server_version unknown b s).0.prep_xids ≡ b.prep_xids
  unfolding engine_commit
  engine_commit-prep_xids b s = refl

  commit_one-Counted :
      (b : Srv) (s : Thd)
      → Counted st extraction server_version unknown b
          (weight st extraction server_version unknown s)
          (commit_one st extraction server_version unknown b s)
  unfolding commit_one
  commit_one-Counted b s =
      let (b', s') = update_max_committed st extraction server_version unknown b s in
      let (_, p, f, _, _) =
        update_max_committed-Untouched st extraction server_version unknown b s in
      let same : weight st extraction server_version unknown s'
          ≡ weight st extraction server_version unknown s =
        ap (λ (x : CommitFlags). if x.xid_written then 1 else 0) f in
      if_cases
        (λ (r : Srv × Thd).
          Counted st extraction server_version unknown b
            (weight st extraction server_version unknown s) r)
        s'.flags.commit_low
        (λ _.
          carried b.prep_xids _ (weight st extraction server_version unknown s) _
            (engine_commit-prep_xids b' s' ∙ p)
            (engine_commit-weight st extraction server_version unknown b' s' ∙ same))
        (λ _.
          carried b.prep_xids b'.prep_xids (weight st extraction server_version unknown s)
            (weight st extraction server_version unknown s') p same)

  written-group_updated :
      (q : Queue st extraction server_version unknown)
      → written st extraction server_version unknown
          (group_updated st extraction server_version unknown q)
        ≡ written st extraction server_version unknown q
  unfolding group_updated
  written-group_updated [] = refl
  written-group_updated (s ∷ q) =
      ap (λ (n : ℕ). weight st extraction server_version unknown s + n) (written-group_updated q)

  written-IsUnwritten :
      (q : Queue st extraction server_version unknown)
      → All IsUnwritten q
      → written st extraction server_version unknown q ≡ 0
  written-IsUnwritten [] h = refl
  written-IsUnwritten (s ∷ q) h = omega (arith, unwritten-weight s h.0, written-IsUnwritten q h.1)

  pub settle :
      (p p' p'' : ℤ) (n n' m m' : ℕ)
      → p' +ℤ pos n ≡ p +ℤ pos n'
      → p'' +ℤ pos m ≡ p' +ℤ pos m'
      → m ≡ n'
      → m' ≡ 0
      → p'' +ℤ pos n ≡ p
  settle p p' p'' n n' m m' h k e f = eq_of_parts _ _ (
      omega (
        arith,
        e,
        f,
        +ℤ_parts p' (pos n),
        +ℤ_parts p (pos n'),
        +ℤ_parts p'' (pos m),
        +ℤ_parts p' (pos m'),
        +ℤ_parts p'' (pos n),
        ap pos_part h,
        ap neg_part h,
        ap pos_part k,
        ap neg_part k,
      ))

  pub process_commit_stage_queue-Settled :
      (b : Srv) (q : Queue st extraction server_version unknown)
      → let (b', q') = process_commit_stage_queue st extraction server_version unknown b q in
        (b'.prep_xids +ℤ pos (written st extraction server_version unknown q) ≡ b.prep_xids)
        × All IsUnwritten q'
  unfolding process_commit_stage_queue
  process_commit_stage_queue-Settled b q =
      let (b', q') =
        each st extraction server_version unknown (commit_one st extraction server_version unknown)
          b q in
      let updated = group_updated st extraction server_version unknown q' in
      let called =
        call st extraction server_version unknown
          (update_commit_group (ids st extraction server_version unknown q')) b' in
      let (b'', q'') =
        each st extraction server_version unknown (release_xid st extraction server_version unknown)
          called updated in
      let all : All IsUnwritten q'' =
        each-All st extraction server_version unknown (λ (s : Thd). Unit {0}) IsUnwritten
          (release_xid st extraction server_version unknown)
          (λ x s _. (release_xid-Balanced st extraction server_version unknown x s).1) called
          updated (trivial updated) in
      (
        settle b.prep_xids b'.prep_xids b''.prep_xids
            (written st extraction server_version unknown q)
            (written st extraction server_version unknown q')
            (written st extraction server_version unknown updated)
            (written st extraction server_version unknown q'')
            (each-Balanced st extraction server_version unknown
              (commit_one st extraction server_version unknown) commit_one-Counted b q)
            (each-Balanced st extraction server_version unknown
              (release_xid st extraction server_version unknown)
              (λ x s. (release_xid-Balanced st extraction server_version unknown x s).0) called
              updated)
            (written-group_updated q') (written-IsUnwritten q'' all),
        all,
      )
    where
      trivial : (xs : Queue st extraction server_version unknown) → All (λ (s : Thd). Unit {0}) xs
      trivial [] = tt
      trivial (x ∷ xs) = (tt, trivial xs)
