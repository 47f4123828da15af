-- ===== src/Applier/Payload.antt =====
-- Mts_submode_database::set_multi_threaded_applier_context and unfold_transaction_payload_event:
-- the databases that a compressed transaction touches. A name is a number, which stands for its
-- place in the order of the strings.
pub mod Names
use knowledge_base.Base.{
  ℕ, suc, ltb, ◌==◌, Bool, true, false, not, ◌&&◌, ◌||◌, Option, none, some, List, [], ◌∷◌, length,
  if◌then◌else◌,
}

-- Mts_db_names: `over_max` is num == OVER_MAX_DBS_IN_EVENT_MTS.
pub data MtsDbNames : Type 0 where
  over_max : MtsDbNames
  names : List ℕ → MtsDbNames

-- What is asked of an event inside the payload.
pub record Inner : Type 0 where
  pub contains_partition_info : Bool
  pub is_query_event : Bool
  pub is_xa_commit : Bool
  pub is_xa_rollback : Bool
  -- get_mts_dbs(&mts_dbs, rli.rpl_filter)
  pub mts_dbs : MtsDbNames

-- The event that the coordinator has read; a payload is its inner events, none for one that cannot be
-- deserialized.
pub data Incoming : Type 0 where
  transaction_payload_event : List (Option Inner) → Incoming
  other_event : Incoming

-- The events of the payload up to one that cannot be deserialized (`none`), and whether there is one.
unfoldable pub unfold_transaction_payload_event : List (Option Inner) → List Inner × Bool
unfold_transaction_payload_event [] = ([], false)
unfold_transaction_payload_event (none ∷ rest) = ([], true)
unfold_transaction_payload_event (some e ∷ rest) =
    let (events, error) = unfold_transaction_payload_event rest in (e ∷ events, error)

-- std::set::insert.
unfoldable pub insert_db : ℕ → List ℕ → List ℕ
insert_db k [] = k ∷ []
insert_db k (x ∷ xs) = if ltb k x then k ∷ x ∷ xs else if k == x then x ∷ xs else x ∷ insert_db k xs

-- The loop's variables: the set so far, and max_mts_dbs_in_event.
pub record Dbs : Type 0 where
  pub dbs : List ℕ
  pub max_mts_dbs_in_event : Bool

-- `max_dbs` is MAX_DBS_IN_EVENT_MTS.
module _ (max_dbs : ℕ) where
  unfoldable pub add_names : List ℕ → List ℕ → Dbs
  add_names [] dbs = record { dbs = dbs; max_mts_dbs_in_event = false }
  add_names (k ∷ ks) dbs =
      let rest = add_names ks (insert_db k dbs) in
      if length (insert_db k dbs) == max_dbs
      then record { dbs = insert_db k dbs; max_mts_dbs_in_event = true }
      else rest

  -- The databases of one event.
  unfoldable pub add_dbs : MtsDbNames → Dbs → Dbs
  add_dbs over_max s = record s { max_mts_dbs_in_event = true }
  add_dbs (names ks) s = add_names ks s.dbs

  -- One round of the loop over the events.
  unfoldable pub add_event : Inner → Dbs → Dbs
  add_event e s =
      let marked = record s { max_mts_dbs_in_event = true } in
      if s.max_mts_dbs_in_event || not e.contains_partition_info
      then s
      else if e.is_query_event && (e.is_xa_commit || e.is_xa_rollback)
      then marked
      else add_dbs e.mts_dbs s

  unfoldable pub add_events : List Inner → Dbs → Dbs
  add_events [] s = s
  add_events (e ∷ es) s = add_events es (add_event e s)

  -- The databases that a payload event gets.
  unfoldable pub payload_dbs : List Inner → MtsDbNames
  payload_dbs events =
      let s = add_events events (record { dbs = []; max_mts_dbs_in_event = false }) in
      if s.max_mts_dbs_in_event then over_max else names s.dbs

  -- What is saved to the event, if it is a payload event, and the result, which is true for an error.
  unfoldable pub set_multi_threaded_applier_context : Incoming → Option MtsDbNames × Bool
  set_multi_threaded_applier_context (transaction_payload_event payload) =
      let (events, _) = unfold_transaction_payload_event payload in
      (some (payload_dbs events), false)
  set_multi_threaded_applier_context other_event = (none, false)
