-- ===== src/Commit/Recover/Tests.antt =====
-- A log of two transactions that ends within a third, and one with a number that stands twice.
use knowledge_base.Base.{ℕ, true, false, ◌&&◌, ◌||◌, List, [], ◌∷◌, contains, ◌≡◌, refl, arith}
use knowledge_base.Commit.Recover.{xid, Read, insert_xid, visit, scan, binlog_recover}
use knowledge_base.Commit.Recover.Groups.{
  Group, transaction, atomic_ddl, by_xid, read, crashed, binlog_recover-exact,
}
use knowledge_base.Commit.Recover.Result.{binlog_recover-unreported}

abbrev whole : List Group
whole =
    transaction 180 250 ((true, 320) ∷ (false, 400) ∷ []) (by_xid 7) 431 ∷ atomic_ddl 500 8 610 ∷ []

abbrev last : Group
last = transaction 680 750 ((true, 820) ∷ []) (by_xid 9) 851

-- The last transaction lacks its XID event.
binlog_recover_example :
    binlog_recover 2 (λ xids. contains 9 xids || contains 4 xids) (crashed whole last 3) 120
    ≡ (610, false)
unfolding binlog_recover scan visit contains
binlog_recover_example = refl

binlog_recover-exact_example :
    (xids : List ℕ) × (binlog_recover 2 (λ xids. contains 9 xids) (crashed whole last 3) 120
      ≡ (610, true && contains 9 xids))
    × ((k : ℕ) → contains k xids ≡ contains k (7 ∷ 8 ∷ []))
binlog_recover-exact_example =
    binlog_recover-exact 2 (λ xids. contains 9 xids) whole last 3 120 (omega arith)

abbrev twice : List Read
twice = read (xid 7) 200 ∷ read (xid 7) 300 ∷ []

binlog_recover-unreported_example : (binlog_recover 2 (λ xids. false) twice 120).1 ≡ (true && false)
binlog_recover-unreported_example =
    binlog_recover-unreported 2 (λ xids. false) twice 120 (refl, (refl, tt))

-- The second insertion is the one that fails.
insert_xid_example : insert_xid 7 (7 ∷ []) ≡ (7 ∷ [], false)
unfolding insert_xid contains
insert_xid_example = refl
