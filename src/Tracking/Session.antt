-- ===== src/Tracking/Session.antt =====
-- Writeset_session_trx_dependency_tracker: it has no state of its own, and writes the session's.
use knowledge_base.Base.{pos, ltb_ℤ, eqb_ℤ, max_ℤ, not, ◌&&◌, if◌then◌else◌}
use knowledge_base.Tracking.Thd.{Thd}
use knowledge_base.Tracking.CommitOrder.{Dependency}

unfoldable pub get_dependency : Thd → Dependency → Thd × Dependency
get_dependency thd d =
    let session_parent = thd.last_session_sequence_number in
    (
      record thd { last_session_sequence_number = d.sequence_number },
      (if not (eqb_ℤ session_parent (pos 0)) && ltb_ℤ session_parent d.sequence_number
          then record d { commit_parent = max_ℤ d.commit_parent session_parent }
          else d),
    )
