-- ===== src/Commit/Stages/Numbers.antt =====
-- The numbers of the groups in the log through the stages FLUSH and COMMIT.
use mathlib.Core.Option
use mathlib.Core.List.{append-nil}
use knowledge_base.Base.{
  ℕ, ℤ, pos, ◌-ℤ◌, leb_ℤ, eqb_ℤ, Bool, true, false, not, ◌&&◌, ◌||◌, Option, none, some, [], ◌∷◌,
  ◌++◌, ltb, ◌+◌, if◌then◌else◌, ◌≡◌, refl, sym, ap, ◌∙◌, if_cases,
}
use knowledge_base.Tracking.Thd.{Thd}
use knowledge_base.Tracking.Clock
use knowledge_base.Tracking.Clock.{LogicalClock, seq_uninit}
use knowledge_base.Tracking.CommitOrder
use knowledge_base.Tracking.CommitOrder.{CommitOrder}
use knowledge_base.Tracking.Tracker
use knowledge_base.Tracking.Tracker.{Tracker}
use knowledge_base.Cache.Storage.{Storage}
use knowledge_base.Cache.Flush.{Log, mngr_flush}
use knowledge_base.Cache.Flush.Numbers.{
  IsNumbered, Keeps, last_number, mngr_flush-Keeps, Extends-refl, Extends-trans,
}
use knowledge_base.Commit.Group.{
  Session, Binlog, call, update_commit_group, inc_prep_xids, dec_prep_xids, flush_thread_caches,
  engine_commit, release_xid, update_max_committed,
}
use knowledge_base.Commit.Stages.{
  Queue, each, ids, assign_automatic_gtids_to_flush_group, flush_engine_logs, flush_queue,
  process_flush_stage_queue, commit_one, group_updated, process_commit_stage_queue,
}

-- What holds of a result, if there is one.
abbrev IfAny : {A : Type 0} → (A → Type 0) → Option A → Type 0
IfAny P none = Unit
IfAny P (some x) = P x

IfAny-map :
    {A B : Type 0} (P : A → Type 0) (Q : B → Type 0) (f : A → B)
    → ((x : A) → P x → Q (f x))
    → (o : Option A) → IfAny P o
    → IfAny Q (Option.map f o)
IfAny-map P Q f g none h = tt
IfAny-map P Q f g (some x) h = g x h

always : {A : Type 0} (o : Option A) → IfAny (λ (x : A). Unit {0}) o
always none = tt
always (some x) = tt

-- The clock that set_if_greater leaves has the same offset.
set_if_greater-offset :
    (fuel : ℕ) (others : ℕ → ℤ → ℤ) (c : LogicalClock) (v : ℤ)
    → IfAny (λ (r : LogicalClock × ℤ). r.0.offset ≡ c.offset) (Clock.set_if_greater fuel others c v)
unfolding Clock.set_if_greater
set_if_greater-offset fuel others c v =
    if_cases
      (λ (o : Option (LogicalClock × ℤ)). IfAny (λ (r : LogicalClock × ℤ). r.0.offset ≡ c.offset) o)
      (leb_ℤ v c.offset) (λ _. refl)
      (λ _.
        IfAny-map (λ (r : ℤ × ℤ). Unit {0}) (λ (r : LogicalClock × ℤ). r.0.offset ≡ c.offset)
          (λ (r : ℤ × ℤ). (record c { state = r.0 }, r.1)) (λ r _. refl)
          (Clock.cas_loop fuel others v c.state (v -ℤ pos 1)) (always _))

update_max_committed-number :
    (t : Tracker) (thd : Thd)
    → IfAny
        (λ (r : Tracker × Thd). last_number r.0 ≡ last_number t)
        (Tracker.update_max_committed t thd)
unfolding Tracker.update_max_committed CommitOrder.update_max_committed
update_max_committed-number t thd =
    let c = t.m_commit_order in
    IfAny-map
      (λ (x : CommitOrder).
        x.transaction_counter.state -ℤ x.max_committed_transaction.offset ≡ last_number t)
      (λ (r : Tracker × Thd). last_number r.0 ≡ last_number t)
      (λ (x : CommitOrder).
        (record t { m_commit_order = x }, record thd { sequence_number = seq_uninit }))
      (λ x h. h) _
      (IfAny-map (λ (r : LogicalClock × ℤ). r.0.offset ≡ c.max_committed_transaction.offset)
        (λ (x : CommitOrder).
          x.transaction_counter.state -ℤ x.max_committed_transaction.offset ≡ last_number t)
        (λ (r : LogicalClock × ℤ). record c { max_committed_transaction = r.0 })
        (λ r h. ap (λ (n : ℤ). c.transaction_counter.state -ℤ n) h)
        (Clock.set_if_greater 2 (λ f s. s) c.max_committed_transaction thd.sequence_number)
        (set_if_greater-offset 2 (λ f s. s) c.max_committed_transaction thd.sequence_number))

module _ {S : Type 0} (st : Storage S) (extraction server_version unknown : ℕ) where
  abbrev Srv : Type 0
  Srv = Binlog st extraction server_version unknown

  abbrev Member : Type 0
  Member = Session st extraction server_version unknown

  flush_thread_caches-Keeps :
      (b : Srv) (s : Member)
      → IsNumbered b.log
      → Keeps b.log (flush_thread_caches st extraction server_version unknown b s).0.log
  unfolding flush_thread_caches inc_prep_xids
  flush_thread_caches-Keeps b s h =
      let (m, r) =
        mngr_flush st extraction server_version unknown s.service.stmt_io s.service.trx_io 0
          s.cache_mngr b.log s.flusher false in
      let kept =
        mngr_flush-Keeps st extraction server_version unknown s.service.stmt_io s.service.trx_io 0
          s.cache_mngr b.log s.flusher false h in
      if_cases (λ (x : Srv × Member × Bool × ℕ). Keeps b.log x.0.log)
        (not r.error && ltb 0 r.bytes_written)
        (λ _.
          if_cases (λ (x : Srv × Member × Bool × ℕ). Keeps b.log x.0.log) r.wrote_xid (λ _. kept)
            (λ _. kept))
        (λ _. kept)

  flush_queue-Keeps :
      (b : Srv) (q : Queue st extraction server_version unknown) (error : Bool) (bytes : ℕ)
      → IsNumbered b.log
      → Keeps b.log (flush_queue st extraction server_version unknown b q error bytes).binlog.log
  unfolding flush_queue
  flush_queue-Keeps b [] error bytes h = (h, Extends-refl b.log)
  flush_queue-Keeps b (s ∷ q) error bytes h =
      let (b', s', failed, n) = flush_thread_caches st extraction server_version unknown b s in
      let (numbered, grown) = flush_thread_caches-Keeps b s h in
      let (numbered', grown') =
        flush_queue-Keeps b' q (if error then failed else error) (bytes + n) numbered in
      let r =
        flush_queue st extraction server_version unknown b' q (if error then failed else error)
          (bytes + n) in
      (numbered', Extends-trans b.log b'.log r.binlog.log grown grown')

  flush_engine_logs-log :
      (check thd : Bool) (b : Srv)
      → (flush_engine_logs st extraction server_version unknown check thd b).log ≡ b.log
  unfolding flush_engine_logs
  flush_engine_logs-log check thd b =
      if_cases (λ (x : Srv). x.log ≡ b.log) (not check || (check && thd)) (λ _. refl) (λ _. refl)

  -- The groups stay, and the last number.
  abbrev SameNumbers : Srv → Srv → Type 0
  SameNumbers b b' =
      (b'.log.groups ≡ b.log.groups) × (last_number b'.log.tracker ≡ last_number b.log.tracker)

  tracked :
      (b : Srv) (s : Member) (o : Option (Tracker × Thd))
      → IfAny (λ (r : Tracker × Thd). last_number r.0 ≡ last_number b.log.tracker) o
      → SameNumbers b
          (elim o as (λ _. Srv × Member) [
            | none ↦ (b, s)
            | some r ↦ (
              record b { log = record b.log { tracker = r.0 } },
              record s { flusher = record s.flusher { thd = r.1 } },
            )
          ]).0
  tracked b s none h = (refl, refl)
  tracked b s (some r) h = (refl, h)

  update_max_committed-SameNumbers :
      (b : Srv) (s : Member)
      → SameNumbers b (update_max_committed st extraction server_version unknown b s).0
  unfolding update_max_committed
  update_max_committed-SameNumbers b s =
      if_cases (λ (r : Srv × Member). SameNumbers b r.0)
        (eqb_ℤ s.flusher.thd.sequence_number seq_uninit) (λ _. (refl, refl))
        (λ _.
          tracked b s (Tracker.update_max_committed b.log.tracker s.flusher.thd)
            (update_max_committed-number b.log.tracker s.flusher.thd))

  commit_one-SameNumbers :
      (b : Srv) (s : Member) → SameNumbers b (commit_one st extraction server_version unknown b s).0
  unfolding commit_one engine_commit
  commit_one-SameNumbers b s =
      let (b', s') = update_max_committed st extraction server_version unknown b s in
      if_cases (λ (r : Srv × Member). SameNumbers b r.0) s'.flags.commit_low
        (λ _. update_max_committed-SameNumbers b s) (λ _. update_max_committed-SameNumbers b s)

  release_xid-SameNumbers :
      (b : Srv) (s : Member)
      → SameNumbers b (release_xid st extraction server_version unknown b s).0
  unfolding release_xid dec_prep_xids
  release_xid-SameNumbers b s =
      if_cases (λ (r : Srv × Member). SameNumbers b r.0) s.flags.xid_written (λ _. (refl, refl))
        (λ _. (refl, refl))

  each-SameNumbers :
      (f : Srv → Member → Srv × Member)
      → ((b : Srv) (s : Member) → SameNumbers b (f b s).0)
      → (b : Srv) (q : Queue st extraction server_version unknown)
      → SameNumbers b (each st extraction server_version unknown f b q).0
  unfolding each
  each-SameNumbers f step b [] = (refl, refl)
  each-SameNumbers f step b (s ∷ q) =
      let (g, n) = each-SameNumbers f step (f b s).0 q in (g ∙ (step b s).0, n ∙ (step b s).1)

  same-Keeps : (b b' : Srv) → SameNumbers b b' → IsNumbered b.log → Keeps b.log b'.log
  same-Keeps b b' (g, n) h = ((rw g h.0, rw (g, n) h.1), ([], g ∙ sym (append-nil b.log.groups)))

  process_commit_stage_queue-SameNumbers :
      (b : Srv) (q : Queue st extraction server_version unknown)
      → SameNumbers b (process_commit_stage_queue st extraction server_version unknown b q).0
  unfolding process_commit_stage_queue
  process_commit_stage_queue-SameNumbers b q =
      let (b', q') =
        each st extraction server_version unknown (commit_one st extraction server_version unknown)
          b q in
      let (g, n) =
        each-SameNumbers (commit_one st extraction server_version unknown) commit_one-SameNumbers b
          q in
      let (g', n') =
        each-SameNumbers (release_xid st extraction server_version unknown) release_xid-SameNumbers
          (call st extraction server_version unknown
            (update_commit_group (ids st extraction server_version unknown q')) b')
          (group_updated st extraction server_version unknown q') in
      (g' ∙ g, n' ∙ n)

  -- In any mode of the tracker, for any queue and whatever fails: if the numbers of the groups in the
  -- log ascend and none is above the tracker's last number, then both still hold after the stage FLUSH and
  -- after the stage COMMIT, and the groups that were in the log are still there and first.
  pub stages-IsNumbered :
      (commit_order_thd : Bool) (real_file_size max_size : ℕ)
      (b : Binlog st extraction server_version unknown)
      (q : Queue st extraction server_version unknown)
      → IsNumbered b.log
      → Keeps b.log
          (process_flush_stage_queue st extraction server_version unknown commit_order_thd
            real_file_size max_size b q).0.binlog.log
        × Keeps b.log (process_commit_stage_queue st extraction server_version unknown b q).0.log
  unfolding process_flush_stage_queue
  stages-IsNumbered commit_order_thd real_file_size max_size b q h =
      let start = flush_engine_logs st extraction server_version unknown false commit_order_thd b in
      let same = flush_engine_logs-log false commit_order_thd b in
      let started : IsNumbered start.log = rw same h in
      let named =
        (assign_automatic_gtids_to_flush_group st extraction server_version unknown q).0 in
      let (numbered, grown) = flush_queue-Keeps start named true 0 started in
      (
        (numbered, (grown.0, grown.1 ∙ ap (λ (l : Log S). l.groups ++ grown.0) same)),
        same-Keeps b (process_commit_stage_queue st extraction server_version unknown b q).0
            (process_commit_stage_queue-SameNumbers b q) h,
      )
