-- ===== src/Applier/Database.antt =====
-- Mts_submode_database: the wait for the workers, partition by partition.
pub mod Released
use mathlib.Core.Option
use knowledge_base.Base.{
  ℕ, ◌+◌, ◌%◌, ◌^◌, ltb, ◌==◌, Bool, true, false, not, ◌&&◌, ◌||◌, Option, none, some, List, [],
  ◌∷◌, if◌then◌else◌,
}
use knowledge_base.Applier.Coordinator.{
  RunningStatus, running, not_running, Worker, GroupStatus, not_in_group, Event,
}

-- Mts_submode_database::schedule_next_event: there is nothing to do. The result is 0.
unfoldable pub schedule_next_event : Event → ℕ
schedule_next_event ev = 0

-- A db_worker_hash_entry of mapping_db_to_worker, with the worker that it is assigned to.
pub record Partition : Type 0 where
  pub worker : Worker
  pub usage : ℕ
  pub temporary_tables : List ℕ

-- What the coordinator finds when slave_worker_hash_cond awakens it.
pub record Release : Type 0 where
  pub usage : ℕ
  pub killed : Bool

-- The do-while loop on the condition: the usage and the flag at its end, and the awakenings to come.
unfoldable pub await_release : List Release → Option (Release × List Release)
await_release [] = none
await_release (w ∷ ws) =
    let rest = await_release ws in if not (w.usage == 0) && not w.killed then rest else some (w, ws)

-- The loop's variables: the temporary tables of the coordinator's session, whether it is killed, the
-- count of released partitions, whether some worker has failed, and the awakenings to come.
pub record Sync : Type 0 where
  pub tables : List ℕ
  pub killed : Bool
  pub ret : ℕ
  pub cant_sync : Bool
  pub wakes : List Release

unfoldable pub is_running : Worker → Bool
is_running w = elim w.running_status [ running ↦ true | not_running ↦ false ]

unfoldable pub is_ignored : Option Worker → Partition → Bool
is_ignored none p = false
is_ignored (some w) p = p.worker.id == w.id && ltb 0 p.usage

-- `none` for the result is -1.
pub record Outcome : Type 0 where
  pub partitions : List Partition
  pub sync : Sync
  pub mts_group_status : GroupStatus
  pub result : Option ℕ

-- `move` is mts_move_temp_tables_to_thd, which is not in the repository.
module _ (move : List ℕ → List ℕ → List ℕ) (ignore : Option Worker) where
  -- The part of the loop's body after the wait.
  unfoldable pub settle : Partition → Sync → Partition × Sync
  settle p s = (
    record p { temporary_tables = [] },
    record s {
      tables = move s.tables p.temporary_tables;
      cant_sync = s.cant_sync || not (is_running p.worker);
    },
  )

  unfoldable pub visit : Partition → Sync → Option (Partition × Sync)
  visit p s =
      let waited =
        Option.map
          (λ (r : Release × List Release).
            settle (record p { usage = r.0.usage })
              (record s { killed = r.0.killed; ret = (s.ret + 1) % 2 ^ 32; wakes = r.1 }))
          (await_release s.wakes) in
      if is_ignored ignore p
      then some (p, s)
      else if ltb 0 p.usage && not s.killed
      then waited
      else some (settle p s)

  unfoldable pub visit_all : List Partition → Sync → Option (List Partition × Sync)
  visit_all [] s = some ([], s)
  visit_all (p ∷ ps) s = elim (visit p s) [
    | none ↦ none
    | some (q, t) ↦ Option.map (λ (r : List Partition × Sync). (q ∷ r.0, r.1)) (visit_all ps t)
  ]

  unfoldable pub wait_for_workers_to_finish : List Partition → GroupStatus → Sync → Option Outcome
  wait_for_workers_to_finish partitions status start =
      Option.map
        (λ (r : List Partition × Sync). record {
          partitions = r.0;
          sync = r.1;
          mts_group_status = elim ignore [ none ↦ not_in_group | some w ↦ status ];
          result = if not r.1.cant_sync then some r.1.ret else none;
        })
        (visit_all partitions start)
