-- ===== src/Cache/Trx.antt =====
-- binlog_trx_cache_data: the cache that can be rolled back, a statement or to a savepoint.
pub mod Savepoint
pub mod Logging
pub mod Handlers
use knowledge_base.Base.{ℕ, leb, ◌==◌, Bool, true, false, not, Option, none, some, if◌then◌else◌}
use knowledge_base.Cache.Storage.{Storage}
use knowledge_base.Cache.Data
use knowledge_base.Cache.Data.{
  CacheData, cache_state_checkpoint, cache_state_rollback, remove_pending_event,
}

-- MY_OFF_T_UNDEF is ~0, the greatest 64-bit number.
abbrev pub my_off_t_undef : ℕ
my_off_t_undef = 18446744073709551615

pub record TrxCache (S : Type 0) : Type 0 where
  pub cache_data : CacheData S
  pub cannot_rollback : Bool
  pub before_stmt_pos : ℕ

module _ {S : Type 0} (st : Storage S) where
  unfoldable pub init : S → TrxCache S
  init empty = record {
    cache_data = Data.init st true empty;
    cannot_rollback = false;
    before_stmt_pos = my_off_t_undef;
  }

  unfoldable pub reset : TrxCache S → TrxCache S
  reset c = record {
    cache_data = Data.reset st c.cache_data;
    cannot_rollback = false;
    before_stmt_pos = my_off_t_undef;
  }

  unfoldable pub set_cannot_rollback : TrxCache S → TrxCache S
  set_cannot_rollback c = record c { cannot_rollback = true }

  unfoldable pub set_prev_position : ℕ → TrxCache S → TrxCache S
  set_prev_position pos c = record c {
    before_stmt_pos = pos;
    cache_data = cache_state_checkpoint st pos c.cache_data;
  }

  unfoldable pub restore_prev_position : TrxCache S → TrxCache S
  restore_prev_position c =
      let d =
        cache_state_rollback st c.before_stmt_pos
          (Data.truncate st c.before_stmt_pos c.cache_data) in
      record c {
        cache_data = record d { flags = record d.flags { with_xid = false } };
        before_stmt_pos = my_off_t_undef;
      }

  unfoldable pub restore_savepoint : ℕ → TrxCache S → TrxCache S
  restore_savepoint pos c = record c {
    cache_data = cache_state_rollback st pos (Data.truncate st pos c.cache_data);
    before_stmt_pos = if leb pos c.before_stmt_pos then my_off_t_undef else c.before_stmt_pos;
  }

  -- `ending` is ending_trans(thd, all), and `write_incident` what mysql_bin_log.write_incident returns
  -- when it is called. The result is the error code, 0 if there is none.
  unfoldable pub truncate : Bool → ℕ → TrxCache S → TrxCache S × ℕ
  truncate ending write_incident c =
      let bare = record c { cache_data = remove_pending_event st c.cache_data } in
      if ending
      then (reset bare, if c.cache_data.flags.incident then write_incident else 0)
      else if not (c.before_stmt_pos == my_off_t_undef)
      then (restore_prev_position bare, 0)
      else (bare, 0)
