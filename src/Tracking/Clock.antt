-- ===== src/Tracking/Clock.antt =====
-- Logical_clock. Its state is atomic: in set_if_greater the other threads may move it before each
-- attempt of the compare-and-exchange loop. int64 values are unbounded integers.
pub mod Cas
use mathlib.Core.Option
use knowledge_base.Base.{
  ℕ, zero, suc, ℤ, pos, ◌+ℤ◌, ◌-ℤ◌, ltb_ℤ, leb_ℤ, eqb_ℤ, Option, none, some, if◌then◌else◌,
}

-- SEQ_UNINIT, which the source asserts to be 0.
abbrev pub seq_uninit : ℤ
seq_uninit = pos 0

pub record LogicalClock : Type 0 where
  pub state : ℤ
  pub offset : ℤ

abbrev pub init : LogicalClock
init = record { state = seq_uninit; offset = pos 0 }

abbrev pub get_timestamp : LogicalClock → ℤ
get_timestamp c = c.state

abbrev pub get_offset : LogicalClock → ℤ
get_offset c = c.offset

-- The new clock, and the incremented value.
unfoldable pub step : LogicalClock → LogicalClock × ℤ
step c = (record c { state = c.state +ℤ pos 1 }, c.state +ℤ pos 1)

unfoldable pub update_offset : LogicalClock → ℤ → LogicalClock
update_offset c new_offset = record c { offset = new_offset }

-- The loop of set_if_greater, on fuel: `others f s` is what the other threads have made of the
-- state `s` when the attempt with `f` rounds left runs. The result is the state and the value
-- returned; `none` means that the fuel ran out.
unfoldable pub cas_loop : ℕ → (ℕ → ℤ → ℤ) → ℤ → ℤ → ℤ → Option (ℤ × ℤ)
cas_loop zero others new_val state old_val = none
cas_loop (suc f) others new_val state old_val =
    let seen = others f state in
    let rest = cas_loop f others new_val seen seen in
    if eqb_ℤ seen old_val
    then some (new_val, new_val)
    else if ltb_ℤ seen new_val
    then rest
    else some (seen, seen)

unfoldable pub set_if_greater : ℕ → (ℕ → ℤ → ℤ) → LogicalClock → ℤ → Option (LogicalClock × ℤ)
set_if_greater fuel others c new_val =
    if leb_ℤ new_val c.offset
    then some (c, seq_uninit)
    else Option.map (λ r. (record c { state = r.0 }, r.1))
        (cas_loop fuel others new_val c.state (new_val -ℤ pos 1))
