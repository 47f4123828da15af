-- ===== src/Applier/LogicalClock/Choice.antt =====
-- Mts_submode_logical_clock::get_least_occupied_worker and get_free_worker: who runs the transaction.
use mathlib.Core.Option
use knowledge_base.Base.{◌+◌, ◌==◌, Bool, false, Option, none, some, List, [], ◌∷◌, if◌then◌else◌}
use knowledge_base.Applier.Coordinator.{
  Worker, Rli, Event, gtid_log_event, anonymous_gtid_log_event, query_event, other_event,
}

-- A worker with no event assigned.
unfoldable pub get_free_worker : List Worker → Option Worker
get_free_worker [] = none
get_free_worker (w ∷ ws) = if w.jobs_len == 0 then some w else get_free_worker ws

-- What the coordinator sees after each sched_yield of the busy wait.
pub record Yield : Type 0 where
  pub killed : Bool
  pub workers : List Worker

abbrev pub yielded : Yield → Rli → Rli
yielded y rli = record rli { killed = y.killed; workers = y.workers }

unfoldable pub spin : List Yield → Rli → Option (Rli × Option Worker)
spin [] rli = if rli.killed then some (rli, none) else none
spin (y ∷ ys) rli =
    let next = yielded y rli in
    let rest = spin ys next in
    if rli.killed
    then some (rli, none)
    else elim (get_free_worker next.workers) [ none ↦ rest | some w ↦ some (next, some w) ]

-- Registration with the commit order manager.
abbrev pub registered : Worker → Rli → Rli
registered w rli = record rli {
  commit_order_manager = Option.map (λ ws. w ∷ ws) rli.commit_order_manager;
}

abbrev pub assign : Rli × Option Worker → Rli × Option Worker
assign (rli, none) = (record rli { option_begin = false }, none)
assign (rli, some w) = (registered w rli, some w)

-- A query event loses its list of databases: it might hold the partitions of the source.
unfoldable pub forget_dbs : Event → Event
forget_dbs (gtid_log_event number parent) = gtid_log_event number parent
forget_dbs (anonymous_gtid_log_event number parent) = anonymous_gtid_log_event number parent
forget_dbs (query_event dbs) = query_event 0
forget_dbs other_event = other_event

-- With no worker of a transaction in progress: a free one now, or the busy wait for one.
unfoldable pub choose_free : List Yield → Rli → Option Worker → Option (Rli × Option Worker)
choose_free yields rli (some w) = some (registered w rli, some w)
choose_free yields rli none =
    Option.map
      (λ (r : Rli × Option Worker).
        assign (record r.0 { mts_wq_no_underrun_cnt = r.0.mts_wq_no_underrun_cnt + 1 }, r.1))
      (spin yields rli)

unfoldable pub choose_worker : List Yield → Rli → Option Worker → Option (Rli × Option Worker)
choose_worker yields rli (some w) = some (rli, some w)
choose_worker yields rli none = choose_free yields rli (get_free_worker rli.workers)

unfoldable pub get_least_occupied_worker :
    List Yield → Event → Rli → Option (Rli × Option Worker × Event)
get_least_occupied_worker yields ev rli =
    Option.map (λ (r : Rli × Option Worker). (r.0, r.1, forget_dbs ev))
      (choose_worker yields rli rli.last_assigned_worker)
