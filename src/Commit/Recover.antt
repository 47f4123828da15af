-- ===== src/Commit/Recover.antt =====
-- binlog_recover: the scan of the last binary log after a crash.
pub mod Groups
pub mod Result
mod Tests
use knowledge_base.Base.{
  ℕ, Bool, true, false, not, ◌&&◌, ◌||◌, Option, none, some, List, [], ◌∷◌, ltb, contains,
  if◌then◌else◌,
}

-- The text of a Query_log_event, as far as the scan compares it.
pub data QueryText : Type 0 where
  begin commit statement : QueryText

-- A query carries its ddl_xid if is_atomic_ddl_event holds of it; `gtid` is an event of which
-- is_gtid_event holds, `other` one of any further type.
pub data Event : Type 0 where
  query : QueryText → Option ℕ → Event
  xid : ℕ → Event
  gtid other : Event

-- One round of the iterator: the event, the position behind it, and has_error().
pub record Read : Type 0 where
  pub event : Event
  pub position : ℕ
  pub has_error : Bool

pub record Scan : Type 0 where
  pub in_transaction : Bool
  pub xids : List ℕ
  pub valid_pos : ℕ

-- mem_root_unordered_set::insert: the set, and whether the number is new.
unfoldable pub insert_xid : ℕ → List ℕ → List ℕ × Bool
insert_xid n xids = if contains n xids then (xids, false) else (n ∷ xids, true)

unfoldable pub text_seen : QueryText → Bool → Bool
text_seen begin in_transaction = true
text_seen commit in_transaction = false
text_seen statement in_transaction = in_transaction

-- The switch of one round: the scan, and `res`.
unfoldable pub visit : Event → Scan → Scan × Bool
unfolding text_seen insert_xid
visit (query text ddl_xid) s =
    let s' = record s { in_transaction = text_seen text s.in_transaction } in
    elim ddl_xid [
      | none ↦ (s', false)
      | some n ↦ let (xids, fresh) = insert_xid n s'.xids in (record s' { xids = xids }, not fresh)
    ]
visit (xid n) s =
    let (xids, fresh) = insert_xid n s.xids in
    (record s { in_transaction = false; xids = xids }, not fresh)
visit gtid s = (s, false)
visit other s = (s, false)

unfoldable pub is_gtid_event : Event → Bool
is_gtid_event (query text ddl_xid) = false
is_gtid_event (xid n) = false
is_gtid_event gtid = true
is_gtid_event other = false

unfoldable pub advance_valid_pos : Read → Scan → Scan
unfolding is_gtid_event
advance_valid_pos r s =
    if not s.in_transaction && not (is_gtid_event r.event)
    then record s { valid_pos = r.position }
    else s

-- The loop. What the switch left in `res` is overwritten by has_error() before it is tested.
unfoldable pub scan : List Read → Scan → Scan × Bool
unfolding visit advance_valid_pos
scan [] s = (s, false)
scan (r ∷ rs) s =
    let (visited, res) = visit r.event s in
    let s' = advance_valid_pos r visited in
    let rest = scan rs s' in if r.has_error then (s', true) else rest

-- *valid_pos and the result, true for an error. `ha_recover` is that of the engines, which get the
-- numbers, and total_ha_2pc counts the engines that prepare.
unfoldable pub binlog_recover : ℕ → (List ℕ → Bool) → List Read → ℕ → ℕ × Bool
binlog_recover total_ha_2pc ha_recover reads valid_pos =
    let (s, res) =
      scan reads (record { in_transaction = false; xids = []; valid_pos = valid_pos }) in
    (s.valid_pos, res || (ltb 1 total_ha_2pc && ha_recover s.xids))
