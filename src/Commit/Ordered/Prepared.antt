-- ===== src/Commit/Ordered/Prepared.antt =====
-- The counter of prepared XIDs over a whole group commit.
use knowledge_base.Base.{
  ℕ, ℤ, pos, ◌+◌, ◌+ℤ◌, +ℤ_parts, eq_of_parts, pos_part, neg_part, Bool, true, false, not, ◌&&◌,
  ◌||◌, [], ◌∷◌, ◌++◌, All, if◌then◌else◌, ◌≡◌, refl, ap, ◌∙◌, arith, if_cases,
}
use knowledge_base.Cache.Storage.{Storage}
use knowledge_base.Commit.Group.{
  CommitFlags, Session, Binlog, engine_commit, release_xid, update_max_committed, finish_engines,
  finish_commit, cleared,
}
use knowledge_base.Commit.Group.Kept.{
  Server, Member, weight, update_max_committed-Untouched, release_xid-Balanced,
  engine_commit-weight, run_after_commit-quiet, finish_gtid-prep_xids,
}
use knowledge_base.Commit.Stages.{
  Queue, assign_automatic_gtids_to_flush_group, flush_engine_logs, flush_queue,
  process_flush_stage_queue, process_commit_stage_queue,
}
use knowledge_base.Commit.Stages.Each.{written}
use knowledge_base.Commit.Stages.Counted.{
  flush_queue-Counted, process_commit_stage_queue-Settled, carried, engine_commit-prep_xids,
}

module _ {S : Type 0} (st : Storage S) (extraction server_version unknown : ℕ) where
  abbrev Srv : Type 0
  Srv = Server st extraction server_version unknown

  abbrev Thd : Type 0
  Thd = Member st extraction server_version unknown

  abbrev Line : Type 0
  Line = Queue st extraction server_version unknown

  abbrev IsFree : Thd → Type 0
  IsFree s = s.flags.xid_written ≡ false

  assign-IsFree :
      (q : Line)
      → All IsFree q
      → All IsFree (assign_automatic_gtids_to_flush_group st extraction server_version unknown q).0
  unfolding assign_automatic_gtids_to_flush_group
  assign-IsFree [] h = tt
  assign-IsFree (s ∷ q) h =
      if_cases (λ (r : Line × Bool). All IsFree r.0) (s.automatic_gtid && s.service.gno_exhausted)
        (λ _. (h.0, assign-IsFree q h.1)) (λ _. (h.0, assign-IsFree q h.1))

  flush_engine_logs-prep_xids :
      (check thd : Bool) (b : Srv)
      → (flush_engine_logs st extraction server_version unknown check thd b).prep_xids ≡ b.prep_xids
  unfolding flush_engine_logs
  flush_engine_logs-prep_xids check thd b =
      if_cases (λ (x : Srv). x.prep_xids ≡ b.prep_xids) (not check || (check && thd)) (λ _. refl)
        (λ _. refl)

  written-append :
      (xs ys : Line)
      → written st extraction server_version unknown (xs ++ ys)
        ≡ written st extraction server_version unknown xs
          + written st extraction server_version unknown ys
  written-append [] ys = omega arith
  written-append (x ∷ xs) ys = omega (arith, written-append xs ys)

  -- p counts n sessions more than base, and f counts m more than p.
  balance_back :
      (base p f last : ℤ) (n m all : ℕ)
      → p +ℤ pos 0 ≡ base +ℤ pos n
      → f ≡ p +ℤ pos m
      → all ≡ n + m
      → last +ℤ pos all ≡ f
      → last ≡ base
  balance_back base p f last n m all h k e l = eq_of_parts _ _ (
      omega (
        arith,
        e,
        +ℤ_parts p (pos 0),
        +ℤ_parts base (pos n),
        +ℤ_parts p (pos m),
        +ℤ_parts last (pos all),
        ap pos_part h,
        ap neg_part h,
        ap pos_part k,
        ap neg_part k,
        ap pos_part l,
        ap neg_part l,
      ))

  -- A queue none of whose sessions has a written XID goes through the stage FLUSH; then other leaders
  -- flush the sessions `joined`, by whose written XIDs the counter grows; then the stage COMMIT runs for
  -- all of them. After that the counter m_atomic_prep_xids is what it was before the stage FLUSH, and
  -- no session is marked as one that it still counts.
  pub prep_xids-Settled :
      (commit_order_thd : Bool) (real_file_size max_size : ℕ)
      (b found : Binlog st extraction server_version unknown)
      (q joined : Queue st extraction server_version unknown)
      → All (λ (s : Session st extraction server_version unknown). s.flags.xid_written ≡ false) q
      → let r =
          (process_flush_stage_queue st extraction server_version unknown commit_order_thd
            real_file_size max_size b q).0 in
        found.prep_xids
          ≡ r.binlog.prep_xids +ℤ pos (written st extraction server_version unknown joined)
        → let (b', q') =
            process_commit_stage_queue st extraction server_version unknown found
              (r.queue ++ joined) in
          (b'.prep_xids ≡ b.prep_xids)
          × All
              (λ (s : Session st extraction server_version unknown). s.flags.xid_written ≡ false)
              q'
  unfolding process_flush_stage_queue
  prep_xids-Settled commit_order_thd real_file_size max_size b found q joined h k =
      let start = flush_engine_logs st extraction server_version unknown false commit_order_thd b in
      let named =
        (assign_automatic_gtids_to_flush_group st extraction server_version unknown q).0 in
      let r = flush_queue st extraction server_version unknown start named true 0 in
      let (settled, free) =
        process_commit_stage_queue-Settled st extraction server_version unknown found
          (r.queue ++ joined) in
      (
        balance_back start.prep_xids r.binlog.prep_xids found.prep_xids _
              (written st extraction server_version unknown r.queue)
              (written st extraction server_version unknown joined)
              (written st extraction server_version unknown (r.queue ++ joined))
              (flush_queue-Counted st extraction server_version unknown start named true 0
                (assign-IsFree q h))
              k (written-append r.queue joined) settled
            ∙ flush_engine_logs-prep_xids false commit_order_thd b,
        free,
      )

  cleared-flags :
      (b : Srv) (s : Thd) → (cleared st extraction server_version unknown b s).flags ≡ s.flags
  unfolding cleared
  cleared-flags b s = if_cases (λ (x : Thd). x.flags ≡ s.flags) b.is_open (λ _. refl) (λ _. refl)

  -- What becomes of the counter and of the mark of one session.
  abbrev Released : Srv → Thd → Srv × Thd → Type 0
  Released b s r =
      (r.0.prep_xids +ℤ pos (weight st extraction server_version unknown s) ≡ b.prep_xids)
      × (r.1.flags.xid_written ≡ false)

  free-weight : (s : Thd) → IsFree s → weight st extraction server_version unknown s ≡ 0
  free-weight s h = ground (arith, h)

  +ℤ_zero : (p : ℤ) (n : ℕ) → n ≡ 0 → p +ℤ pos n ≡ p
  +ℤ_zero p n h = eq_of_parts _ _ (omega (arith, h, +ℤ_parts p (pos n)))

  release_xid-Released :
      (b : Srv) (s : Thd) → Released b s (release_xid st extraction server_version unknown b s)
  release_xid-Released b s =
      let (counted, free) = release_xid-Balanced st extraction server_version unknown b s in
      let r = release_xid st extraction server_version unknown b s in
      (
        counted
            ∙ +ℤ_zero b.prep_xids (weight st extraction server_version unknown r.1)
                (free-weight r.1 free),
        free,
      )

  finish_engines-Released :
      (b : Srv) (s : Thd) → Released b s (finish_engines st extraction server_version unknown b s)
  unfolding finish_engines
  finish_engines-Released b s =
      let (committed, c) = engine_commit st extraction server_version unknown b s in
      let (released, d) = release_xid st extraction server_version unknown committed c in
      let (counted, free) = release_xid-Released committed c in
      let (same, mark, _) =
        run_after_commit-quiet st extraction server_version unknown released d in
      if_cases (λ (r : Srv × Thd). Released b s r) s.flags.commit_low
        (λ _. (
          carried st extraction server_version unknown released.prep_xids _
                (weight st extraction server_version unknown s)
                (weight st extraction server_version unknown c) same
                (engine_commit-weight st extraction server_version unknown b s)
              ∙ counted
              ∙ engine_commit-prep_xids st extraction server_version unknown b s,
          mark ∙ free,
        ))
        (λ _. release_xid-Released b s)

  -- finish_commit lowers the counter m_atomic_prep_xids by one if the session's XID is written and still
  -- counted, and leaves it alone otherwise; after it the session is not marked as counted.
  finish_commit-Settled :
      (b : Binlog st extraction server_version unknown)
      (s : Session st extraction server_version unknown)
      → let (b', s', _) = finish_commit st extraction server_version unknown b s in
        (b'.prep_xids +ℤ pos (if s.flags.xid_written then 1 else 0) ≡ b.prep_xids)
        × (s'.flags.xid_written ≡ false)
  unfolding finish_commit
  finish_commit-Settled b s =
      let c = cleared st extraction server_version unknown b s in
      let (b', s') = update_max_committed st extraction server_version unknown b c in
      let (_, p, f, _, _) =
        update_max_committed-Untouched st extraction server_version unknown b c in
      let (counted, free) = finish_engines-Released b' s' in
      let (b'', s'') = finish_engines st extraction server_version unknown b' s' in
      (
        carried st extraction server_version unknown b''.prep_xids _
              (weight st extraction server_version unknown s) _
              (finish_gtid-prep_xids st extraction server_version unknown b'' s'')
              (ap (λ (x : CommitFlags). if x.xid_written then 1 else 0) (f ∙ cleared-flags b s))
            ∙ counted
            ∙ p,
        free,
      )
