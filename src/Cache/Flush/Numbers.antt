-- ===== src/Cache/Flush/Numbers.antt =====
-- The sequence numbers of the groups in the log, through the flush of a session in any mode.
use mathlib.Core.List.{append-nil, append_assoc}
use knowledge_base.Base.{
  ℕ, ℤ, pos, ◌+ℤ◌, ◌-ℤ◌, ◌≤ℤ◌, ◌<ℤ◌, +ℤ_parts, -ℤ_parts, Bool, List, [], ◌∷◌, ◌++◌, All, ◌≡◌, refl,
  sym, ap, ◌∙◌, arith, if_cases,
}
use knowledge_base.Tracking.Thd.{Thd}
use knowledge_base.Tracking.Clock
use knowledge_base.Tracking.Clock.{LogicalClock}
use knowledge_base.Tracking.CommitOrder
use knowledge_base.Tracking.CommitOrder.{CommitOrder, Dependency}
use knowledge_base.Tracking.Tracker
use knowledge_base.Tracking.Tracker.{Tracker}
use knowledge_base.Tracking.Tracker.Numbers.{Stamped, get_dependency-Stamped}
use knowledge_base.Cache.Storage.{Storage}
use knowledge_base.Cache.Data.{CacheData}
use knowledge_base.Cache.Flush.{
  is_flush_error, Flusher, GtidEvent, Io, Log, write_cache, write_transaction, numbered, Flushed,
  conclude, flush_finalized, flush, flush_trx, CacheMngr, mngr_flush,
}

-- The last number that the log's tracker has given, as the log counts.
abbrev pub last_number : Tracker → ℤ
last_number t =
    t.m_commit_order.transaction_counter.state -ℤ t.m_commit_order.max_committed_transaction.offset

next_number : (s off : ℤ) → s -ℤ off <ℤ s +ℤ pos 1 -ℤ off
next_number s off = omega (arith, +ℤ_parts s (pos 1), -ℤ_parts s off, -ℤ_parts (s +ℤ pos 1) off)

module _ {S : Type 0} where
  -- Each group's number is above those of the groups before it.
  abbrev pub Ascending : List (GtidEvent × S) → Type 0
  Ascending [] = Unit
  Ascending (g ∷ gs) =
      All (λ (h : GtidEvent × S). g.0.sequence_number <ℤ h.0.sequence_number) gs × Ascending gs

  abbrev pub UpTo : ℤ → List (GtidEvent × S) → Type 0
  UpTo n gs = All (λ (g : GtidEvent × S). g.0.sequence_number ≤ℤ n) gs

  abbrev Under : ℤ → List (GtidEvent × S) → Type 0
  Under n gs = All (λ (g : GtidEvent × S). g.0.sequence_number <ℤ n) gs

  abbrev pub IsNumbered : Log S → Type 0
  IsNumbered log = Ascending log.groups × UpTo (last_number log.tracker) log.groups

  -- Room for the next number: all groups are below it.
  abbrev IsReady : Log S → Type 0
  IsReady log = Ascending log.groups × Under (last_number log.tracker) log.groups

  -- The groups that were there stay, in their places.
  abbrev pub Extends : Log S → Log S → Type 0
  Extends log log' = (new : List (GtidEvent × S)) × (log'.groups ≡ log.groups ++ new)

  Under-weaken : (n : ℤ) (gs : List (GtidEvent × S)) → Under n gs → UpTo n gs
  Under-weaken n [] h = tt
  Under-weaken n (g ∷ gs) h = (omega (arith, h.0), Under-weaken n gs h.1)

  UpTo-Under : (m n : ℤ) (gs : List (GtidEvent × S)) → m <ℤ n → UpTo m gs → Under n gs
  UpTo-Under m n [] lt h = tt
  UpTo-Under m n (g ∷ gs) lt h = (omega (arith, h.0, lt), UpTo-Under m n gs lt h.1)

  All-snoc :
      (P : GtidEvent × S → Type 0) (gs : List (GtidEvent × S)) (g : GtidEvent × S)
      → All P gs
      → P g
      → All P (gs ++ (g ∷ []))
  All-snoc P [] g h p = (p, tt)
  All-snoc P (x ∷ gs) g h p = (h.0, All-snoc P gs g h.1 p)

  Ascending-snoc :
      (gs : List (GtidEvent × S)) (g : GtidEvent × S)
      → Ascending gs
      → Under g.0.sequence_number gs
      → Ascending (gs ++ (g ∷ []))
  Ascending-snoc [] g h u = (tt, tt)
  Ascending-snoc (x ∷ gs) g h u = (
    All-snoc (λ (y : GtidEvent × S). x.0.sequence_number <ℤ y.0.sequence_number) gs g h.0 u.0,
    Ascending-snoc gs g h.1 u.1,
  )

  abbrev stepped : Log S → Log S
  stepped log = record log { tracker = (Tracker.step log.tracker).0 }

  step-IsReady : (log : Log S) → IsNumbered log → IsReady (stepped log)
  unfolding Tracker.step CommitOrder.step Clock.step
  step-IsReady log h =
      let t = log.tracker.m_commit_order in
      (
        h.0,
        UpTo-Under (last_number log.tracker)
            (t.transaction_counter.state +ℤ pos 1 -ℤ t.max_committed_transaction.offset) log.groups
            (next_number t.transaction_counter.state t.max_committed_transaction.offset) h.1,
      )

  IsReady-IsNumbered : (log : Log S) → IsReady log → IsNumbered log
  IsReady-IsNumbered log h = (h.0, Under-weaken (last_number log.tracker) log.groups h.1)

  appended :
      (gs : List (GtidEvent × S)) (g : GtidEvent × S) (n m : ℤ)
      → Ascending gs
      → Under n gs
      → g.0.sequence_number ≡ n
      → m ≡ n
      → Ascending (gs ++ (g ∷ [])) × UpTo m (gs ++ (g ∷ []))
  appended gs g n m a u e k = (
    Ascending-snoc gs g a (rw e u),
    rw k (
        All-snoc (λ (y : GtidEvent × S). y.0.sequence_number ≤ℤ n) gs g (Under-weaken n gs u)
          (rw e (omega arith))),
  )

  -- The numbered groups and that the log only grew.
  abbrev pub Keeps : Log S → Log S → Type 0
  Keeps log log' = IsNumbered log' × Extends log log'

  pub Extends-refl : (log : Log S) → Extends log log
  Extends-refl log = ([], sym (append-nil log.groups))

  pub Extends-trans : (a b c : Log S) → Extends a b → Extends b c → Extends a c
  Extends-trans a b c (x, h) (y, k) =
      (x ++ y, k ∙ ap (λ (l : List (GtidEvent × S)). l ++ y) h ∙ append_assoc a.groups x y)

  module _ (st : Storage S) (extraction server_version unknown : ℕ) where
    -- A tracker with the same clocks.
    moved :
        (t u : Tracker) (thd : Thd) (d : Dependency)
        → Stamped t thd u d
        → last_number u ≡ last_number t
    moved t u thd d (_, (c, m)) =
        ap (λ (x : LogicalClock). x.state -ℤ u.m_commit_order.max_committed_transaction.offset) c
        ∙ ap (λ (x : LogicalClock). t.m_commit_order.transaction_counter.state -ℤ x.offset) m

    retracked :
        (log : Log S) (u : Tracker)
        → last_number u ≡ last_number log.tracker
        → IsReady log
        → Keeps log (record log { tracker = u })
    retracked log u e h = ((h.0, rw e (Under-weaken _ log.groups h.1)), Extends-refl log)

    write_transaction-Keeps :
        (io : Io) (c : CacheData S) (log : Log S) (f : Flusher)
        → IsReady log
        → f.thd.sequence_number ≡ log.tracker.m_commit_order.transaction_counter.state
        → Keeps log (write_transaction st extraction server_version unknown io c log f).0
    unfolding write_transaction
    write_transaction-Keeps io c log f h n =
        let (u, thd, d) = Tracker.get_dependency extraction log.tracker f.thd in
        let stamped = get_dependency-Stamped extraction log.tracker f.thd in
        let same = moved log.tracker u f.thd d stamped in
        if_cases (λ (x : Log S × Flusher × Bool). Keeps log x.0) io.gtid_fails
          (λ _. retracked log u same h)
          (λ _.
            if_cases (λ (x : Log S × Flusher × Bool). Keeps log x.0)
              (write_cache st extraction server_version unknown io c) (λ _. retracked log u same h)
              (λ _. (
                appended log.groups (_, c.cache) (last_number log.tracker) (last_number u) h.0 h.1
                    (stamped.0
                      ∙ ap
                          (λ (x : ℤ).
                            x -ℤ log.tracker.m_commit_order.max_committed_transaction.offset)
                          n)
                    same,
                (_, refl),
              )))

    conclude-log :
        (c : CacheData S) (wrote_xid : Bool) (x : Log S × Flusher × Bool)
        → (conclude st extraction server_version unknown c wrote_xid x).log ≡ x.0
    conclude-log c wrote_xid x = refl

    stepped-Keeps :
        (log after : Log S) → IsNumbered log → Keeps (stepped log) after → Keeps log after
    stepped-Keeps log after h k = k

    flush_finalized-Keeps :
        (io : Io) (c : CacheData S) (log : Log S) (f : Flusher) (wrote_xid : Bool)
        → IsNumbered log
        → Keeps log (flush_finalized st extraction server_version unknown io c log f wrote_xid).log
    unfolding flush_finalized numbered Tracker.step CommitOrder.step Clock.step
    flush_finalized-Keeps io c log f wrote_xid h =
        let ready = step-IsReady log h in
        if_cases (λ (r : Flushed st extraction server_version unknown). Keeps log r.log)
          (is_flush_error f.commit_error)
          (λ _. (IsReady-IsNumbered (stepped log) ready, Extends-refl log))
          (λ _.
            write_transaction-Keeps io c (stepped log)
              (numbered st extraction server_version unknown (Tracker.step log.tracker).1 f) ready
              refl)

    flush-Keeps :
        (io : Io) (bytes : ℕ) (c : CacheData S) (log : Log S) (f : Flusher) (wrote_xid : Bool)
        → IsNumbered log
        → Keeps log (flush st extraction server_version unknown io bytes c log f wrote_xid).1.log
    unfolding flush
    flush-Keeps io bytes c log f wrote_xid h =
        if_cases
          (λ (x : CacheData S × Flushed st extraction server_version unknown). Keeps log x.1.log)
          c.flags.finalized (λ _. flush_finalized-Keeps io c log f wrote_xid h)
          (λ _. (h, Extends-refl log))

    pub mngr_flush-Keeps :
        (io io' : Io) (bytes : ℕ) (m : CacheMngr st extraction server_version unknown) (log : Log S)
        (f : Flusher) (wrote_xid : Bool)
        → IsNumbered log
        → Keeps log
            (mngr_flush st extraction server_version unknown io io' bytes m log f wrote_xid).1.log
    unfolding mngr_flush flush_trx
    mngr_flush-Keeps io io' bytes m log f wrote_xid h =
        let r = (flush st extraction server_version unknown io 0 m.stmt_cache log f wrote_xid).1 in
        let r' =
          (flush st extraction server_version unknown io' 0 m.trx_cache.cache_data r.log r.flusher
            r.wrote_xid).1 in
        let (first, grown) = flush-Keeps io 0 m.stmt_cache log f wrote_xid h in
        let (second, grown') =
          flush-Keeps io' 0 m.trx_cache.cache_data r.log r.flusher r.wrote_xid first in
        if_cases
          (λ (x : CacheMngr st extraction server_version unknown
              × Flushed st extraction server_version unknown).
            Keeps log x.1.log)
          r.error (λ _. (first, grown)) (λ _. (second, Extends-trans log r.log r'.log grown grown'))
