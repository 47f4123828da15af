-- ===== src/Commit/Recover/Groups.antt =====
-- The scan of a log of groups, the last of which may be cut off.
use knowledge_base.Base.{
  ℕ, zero, suc, ◌≤◌, ◌<◌, take-append, Bool, true, false, not, ◌&&◌, ◌||◌, Option, none, some, List,
  [], ◌∷◌, ◌++◌, length, take, length-append, ltb, ◌==◌, contains, if◌then◌else◌, ◌≡◌, refl, sym,
  ap, ◌∙◌, arith, if_cases,
}
use knowledge_base.Commit.Recover.{
  begin, commit, statement, Event, query, xid, gtid, other, Read, Scan, insert_xid, visit,
  advance_valid_pos, scan, binlog_recover,
}

abbrev pub read : Event → ℕ → Read
read e p = record { event = e; position = p; has_error = false }

pub data Ending : Type 0 where
  by_xid : ℕ → Ending
  by_commit : Ending

abbrev pub ending : Ending → Event
ending (by_xid n) = xid n
ending by_commit = query commit none

-- A group, with the positions behind its events: a transaction, whose inner events are statements
-- (true) or events of another type; an atomic DDL statement; any other statement of its own.
pub data Group : Type 0 where
  transaction : (at_gtid at_begin : ℕ) → List (Bool × ℕ) → Ending → ℕ → Group
  atomic_ddl : (at_gtid : ℕ) → ℕ → ℕ → Group
  single : (at_gtid : ℕ) → ℕ → Group

abbrev pub inner : List (Bool × ℕ) → List Read
inner [] = []
inner ((b, p) ∷ xs) = read (if b then query statement none else other) p ∷ inner xs

abbrev pub reads_of : Group → List Read
reads_of (transaction g b body e p) =
    read gtid g ∷ read (query begin none) b ∷ (inner body ++ (read (ending e) p ∷ []))
reads_of (atomic_ddl g n p) = read gtid g ∷ read (query statement (some n)) p ∷ []
reads_of (single g p) = read gtid g ∷ read (query statement none) p ∷ []

abbrev pub reads_of_all : List Group → List Read
reads_of_all [] = []
reads_of_all (g ∷ gs) = reads_of g ++ reads_of_all gs

-- The number by which the engines know the group.
abbrev pub xid_of : Group → List ℕ
xid_of (transaction g b body (by_xid n) p) = n ∷ []
xid_of (transaction g b body by_commit p) = []
xid_of (atomic_ddl g n p) = n ∷ []
xid_of (single g p) = []

abbrev pub xids_of : List Group → List ℕ
xids_of [] = []
xids_of (g ∷ gs) = xid_of g ++ xids_of gs

abbrev pub end_of : Group → ℕ
end_of (transaction g b body e p) = p
end_of (atomic_ddl g n p) = p
end_of (single g p) = p

-- The end of the last group, or where the scan began.
abbrev pub last_end : List Group → ℕ → ℕ
last_end [] start = start
last_end (g ∷ gs) start = last_end gs (end_of g)

contains-append :
    (k : ℕ) (xs ys : List ℕ) → contains k (xs ++ ys) ≡ (contains k xs || contains k ys)
unfolding contains
contains-append k [] ys = refl
contains-append k (x ∷ xs) ys = ground (arith, contains-append k xs ys)

present :
    (k n : ℕ) (xids : List ℕ)
    → contains n xids ≡ true
    → contains k xids ≡ (n == k || false || contains k xids)
present k n xids h = ground arith

contains-insert_xid :
    (k n : ℕ) (xids : List ℕ)
    → contains k (insert_xid n xids).0 ≡ (contains k (n ∷ []) || contains k xids)
unfolding insert_xid contains
contains-insert_xid k n xids =
    if_cases (λ (r : List ℕ × Bool). contains k r.0 ≡ (n == k || false || contains k xids))
      (contains n xids) (λ h. ground (arith, present k n xids h)) (λ h. ground arith)

scan-append :
    (xs ys : List Read) (s : Scan)
    → (scan xs s).1 ≡ false
    → scan (xs ++ ys) s ≡ scan ys (scan xs s).0
unfolding scan
scan-append [] ys s h = refl
scan-append (r ∷ xs) ys s h =
    ground (arith, scan-append xs ys (advance_valid_pos r (visit r.event s).0))

-- The scan of one whole group, from outside a transaction.
abbrev Passed : Group → Scan → Scan × Bool → Type 0
Passed g s r =
    (r.1 ≡ false)
    × (r.0.in_transaction ≡ false)
    × (r.0.valid_pos ≡ end_of g)
    × ((k : ℕ) → contains k r.0.xids ≡ (contains k (xid_of g) || contains k s.xids))

-- The scan of a part of a group: nothing is settled.
abbrev Pending : Scan → Scan × Bool → Type 0
Pending s r = (r.1 ≡ false) × (r.0.valid_pos ≡ s.valid_pos) × (r.0.xids ≡ s.xids)

round-inner :
    (b : Bool) (p : ℕ) (s : Scan)
    → s.in_transaction ≡ true
    → let e = if b then query statement none else other in
      advance_valid_pos (read e p) (visit e s).0 ≡ s
unfolding advance_valid_pos visit
round-inner true p s h = ground arith
round-inner false p s h = ground arith

scan-inner :
    (xs : List (Bool × ℕ)) (s : Scan) → s.in_transaction ≡ true → scan (inner xs) s ≡ (s, false)
unfolding scan
scan-inner [] s h = refl
scan-inner ((b, p) ∷ xs) s h = rw (round-inner b p s h) (scan-inner xs s h)

-- The round that ends a transaction.
round-ending :
    (e : Ending) (g b : ℕ) (body : List (Bool × ℕ)) (p : ℕ) (s s' : Scan)
    → s'.xids ≡ s.xids
    → Passed (transaction g b body e p) s (scan (read (ending e) p ∷ []) s')
unfolding scan advance_valid_pos visit contains
round-ending (by_xid n) g b body p s s' h = (
  refl,
  refl,
  refl,
  λ k. contains-insert_xid k n s'.xids ∙ ap (λ (l : List ℕ). contains k (n ∷ []) || contains k l) h,
)
round-ending by_commit g b body p s s' h = (refl, refl, refl, λ k. ap (contains k) h)

abbrev begun : Scan → Scan
begun s = record s { in_transaction = true }

round-gtid : (g : ℕ) (rs : List Read) (s : Scan) → scan (read gtid g ∷ rs) s ≡ scan rs s
unfolding scan advance_valid_pos visit
round-gtid g rs s =
    ap (scan rs) (
      if_cases (λ (r : Scan). r ≡ s) (not s.in_transaction && false) (λ h. ground arith)
        (λ h. refl))

-- The first two rounds of a transaction.
rounds-begin :
    (g b : ℕ) (rs : List Read) (s : Scan)
    → scan (read gtid g ∷ read (query begin none) b ∷ rs) s ≡ scan rs (begun s)
unfolding scan advance_valid_pos visit
rounds-begin g b rs s = round-gtid g (read (query begin none) b ∷ rs) s ∙ second
  where
    second : scan (read (query begin none) b ∷ rs) s ≡ scan rs (begun s)
    second = refl

-- The scan outside a transaction, as the record that computes.
outside : (s : Scan) → s.in_transaction ≡ false → s ≡ record s { in_transaction = false }
outside s h = ground arith

scan-statement :
    (p : ℕ) (ddl_xid : Option ℕ) (g : Group) (s : Scan)
    → xid_of g ≡ elim ddl_xid [ none ↦ [] | some n ↦ n ∷ [] ]
    → end_of g ≡ p
    → Passed g s
        (scan (read (query statement ddl_xid) p ∷ []) (record s { in_transaction = false }))
unfolding scan advance_valid_pos visit contains
scan-statement p none g s e f = (refl, refl, sym f, λ k. rw e refl)
scan-statement p (some n) g s e f =
    (refl, refl, sym f, λ k. contains-insert_xid k n s.xids ∙ rw e refl)

scan-group : (g : Group) (s : Scan) → s.in_transaction ≡ false → Passed g s (scan (reads_of g) s)
scan-group (transaction g b body e p) s h =
    let tail = read (ending e) p ∷ [] in
    let inside = scan-inner body (begun s) refl in
    rw
      (
        rounds-begin g b (inner body ++ tail) s,
        scan-append (inner body) tail (begun s) (ap (λ (r : Scan × Bool). r.1) inside),
        inside,
      )
      (round-ending e g b body p s (begun s) refl)
scan-group (atomic_ddl g n p) s h =
    rw (round-gtid g (read (query statement (some n)) p ∷ []) s, outside s h)
      (scan-statement p (some n) (atomic_ddl g n p) s refl refl)
scan-group (single g p) s h =
    rw (round-gtid g (read (query statement none) p ∷ []) s, outside s h)
      (scan-statement p none (single g p) s refl refl)

-- A scan of whole groups.
scan-groups :
    (gs : List Group) (s : Scan)
    → s.in_transaction ≡ false
    → let r = scan (reads_of_all gs) s in
      (r.1 ≡ false)
      × (r.0.in_transaction ≡ false)
      × (r.0.valid_pos ≡ last_end gs s.valid_pos)
      × ((k : ℕ) → contains k r.0.xids ≡ (contains k (xids_of gs) || contains k s.xids))
unfolding scan contains
scan-groups [] s h = (refl, h, refl, λ k. refl)
scan-groups (g ∷ gs) s h =
    let (quiet, out, at, members) = scan-group g s h in
    let s' = (scan (reads_of g) s).0 in
    let (quiet', out', at', members') = scan-groups gs s' out in
    rw (scan-append (reads_of g) (reads_of_all gs) s quiet) (
      quiet',
      out',
      at' ∙ ap (last_end gs) at,
      λ k. ground (arith, members k, members' k, contains-append k (xid_of g) (xids_of gs)),
    )

take-inner : (n : ℕ) (xs : List (Bool × ℕ)) → take n (inner xs) ≡ inner (take n xs)
take-inner zero xs = refl
take-inner (suc n) [] = refl
take-inner (suc n) ((b, p) ∷ xs) =
    ap (◌∷◌ (read (if b then query statement none else other) p)) (take-inner n xs)

length-inner : (xs : List (Bool × ℕ)) → length (inner xs) ≡ length xs
length-inner [] = refl
length-inner ((b, p) ∷ xs) = ap suc (length-inner xs)

-- A scan of no more than the events inside a transaction.
scan-torn :
    (n : ℕ) (body : List (Bool × ℕ)) (last : Read) (s : Scan)
    → n ≤ length body
    → scan (take n (inner body ++ (last ∷ []))) (begun s) ≡ (begun s, false)
scan-torn n body last s h =
    rw
      (take-append (inner body) (last ∷ []) n (omega (arith, length-inner body)), take-inner n body)
      (scan-inner (take n body) (begun s) refl)

scan-nothing : (s : Scan) → Pending s (scan [] s)
unfolding scan
scan-nothing s = (refl, refl, refl)

scan-gtid : (g : ℕ) (s : Scan) → Pending s (scan (read gtid g ∷ []) s)
scan-gtid g s = rw (round-gtid g [] s) (scan-nothing s)

-- The scan of a group that is cut off.
scan-cut :
    (g : Group) (n : ℕ) (s : Scan)
    → n < length (reads_of g)
    → Pending s (scan (take n (reads_of g)) s)
scan-cut g zero s h = scan-nothing s
scan-cut (transaction g b body e p) (suc zero) s h = scan-gtid g s
scan-cut (transaction g b body e p) (suc (suc n)) s h =
    let last = read (ending e) p in
    rw
      (
        rounds-begin g b (take n (inner body ++ (last ∷ []))) s,
        scan-torn n body last s
            (omega (arith, length-inner body, length-append (inner body) (last ∷ []))),
      )
      (refl, refl, refl)
scan-cut (atomic_ddl g n p) (suc zero) s h = scan-gtid g s
scan-cut (atomic_ddl g n p) (suc (suc m)) s h = absurd (omega arith)
scan-cut (single g p) (suc zero) s h = scan-gtid g s
scan-cut (single g p) (suc (suc m)) s h = absurd (omega arith)

-- A log of whole groups, and then the first events of a further one.
abbrev pub crashed : List Group → Group → ℕ → List Read
crashed gs g n = reads_of_all gs ++ take n (reads_of g)

scan-crashed :
    (gs : List Group) (g : Group) (n : ℕ) (s : Scan)
    → s.in_transaction ≡ false
    → n < length (reads_of g)
    → let r = scan (crashed gs g n) s in
      (r.1 ≡ false)
      × (r.0.valid_pos ≡ last_end gs s.valid_pos)
      × ((k : ℕ) → contains k r.0.xids ≡ (contains k (xids_of gs) || contains k s.xids))
scan-crashed gs g n s out h =
    let (quiet, out', at, members) = scan-groups gs s out in
    let (quiet', at', same) = scan-cut g n (scan (reads_of_all gs) s).0 h in
    rw (scan-append (reads_of_all gs) (take n (reads_of g)) s quiet)
      (quiet', at' ∙ at, λ k. ap (contains k) same ∙ members k)

or-false : (b : Bool) → (b || false) ≡ b
or-false true = refl
or-false false = refl

-- Of a log of whole groups that ends within a further group, whose transaction, atomic DDL statement or
-- other statement it then lacks, the scan finds as the valid position the end of the last whole group (the
-- given position if there is none); the numbers that it gives to the engines are exactly those of the
-- whole groups, and its result is what ha_recover says of them if more than one engine prepares, and no
-- error otherwise.
pub binlog_recover-exact :
    (total_ha_2pc : ℕ) (ha_recover : List ℕ → Bool) (gs : List Group) (g : Group) (n start : ℕ)
    → n < length (reads_of g)
    → (xids : List ℕ) × (binlog_recover total_ha_2pc ha_recover (crashed gs g n) start
        ≡ (last_end gs start, ltb 1 total_ha_2pc && ha_recover xids))
      × ((k : ℕ) → contains k xids ≡ contains k (xids_of gs))
unfolding binlog_recover contains
binlog_recover-exact total_ha_2pc ha_recover gs g n start h =
    let s : Scan = record { in_transaction = false; xids = []; valid_pos = start } in
    let (quiet, at, members) = scan-crashed gs g n s refl h in
    ((scan (crashed gs g n) s).0.xids, rw (quiet, at) refl, λ k. members k ∙ or-false _)
