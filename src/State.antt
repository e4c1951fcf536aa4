-- ===== src/State.antt =====
-- firmware/src/sys/state.c and firmware/include/sys/state.h: the system state and its validated
-- transitions.
pub mod Rules
mod Tests
use vayu.Common.{ℕ, Bool, true, false, ◌&&◌, List, [], ◌∷◌, ◌==◌, if◌then◌else◌}

-- `sys_state_t`.
pub data SysState : Type 0 where
  uninitialized init standby prearm armed in_air failsafe terminated calibrating esc_calib :
      SysState

-- The bits that the enumerators stand for; the code compares these.
abbrev pub code : SysState → ℕ
code uninitialized = 0x1
code init = 0x2
code standby = 0x4
code prearm = 0x8
code armed = 0x10
code in_air = 0x20
code failsafe = 0x40
code terminated = 0x80
code calibrating = 0x100
code esc_calib = 0x200

-- `vayu_status_t`, the two values that `system_state_set` returns.
pub data Status : Type 0 where
  ok err_invalid : Status

-- `k_allowed_transitions`, row by row.
abbrev allowed_transitions : List (SysState × SysState)
allowed_transitions =
    (uninitialized, init)
    ∷ (init, standby)
    ∷ (standby, prearm)
    ∷ (standby, armed)
    ∷ (standby, calibrating)
    ∷ (init, esc_calib)
    ∷ (standby, esc_calib)
    ∷ (esc_calib, standby)
    ∷ (failsafe, calibrating)
    ∷ (prearm, armed)
    ∷ (prearm, standby)
    ∷ (armed, in_air)
    ∷ (armed, standby)
    ∷ (in_air, armed)
    ∷ (in_air, standby)
    ∷ (calibrating, standby)
    ∷ (failsafe, standby)
    ∷ []

-- The `for` loop over the table.
abbrev in_table : SysState → SysState → List (SysState × SysState) → Bool
in_table cur new [] = false
in_table cur new ((a, b) ∷ rows) =
    if code a == code cur && code b == code new then true else in_table cur new rows

-- What a call leaves behind: the state, the status returned, and whether the rejection was logged.
pub record Outcome : Type 0 where
  pub state : SysState
  pub status : Status
  pub logged : Bool

-- `system_state_set`, on the state `cur` that it reads.
unfoldable pub set : SysState → SysState → Outcome
set cur new =
    if code cur == code new
    then record { state = cur; status = ok; logged = false }
    else if code new == code failsafe
    then record { state = new; status = ok; logged = false }
    else if in_table cur new allowed_transitions
    then record { state = new; status = ok; logged = false }
    else record { state = cur; status = err_invalid; logged = true }

-- Requests in order; what each returns is discarded.
unfoldable pub run : SysState → List SysState → SysState
run cur [] = cur
run cur (new ∷ rest) = run (set cur new).state rest
