-- ===== src/EscCalib.antt =====
-- firmware/src/actuator/esc_calib.c: ESC endpoint calibration, the two-boot procedure that drives
-- every motor to full throttle. The statics are the record `Esc`. What `fs_owner` answers, the tick
-- count and the system state are arguments; a tick count is read once per call.
pub mod Safety
pub mod Gesture
pub mod Boot
mod Tests
use vayu.Common.{
  ℕ, ◌+◌, ◌-◌, ◌<◌, ◌≤◌, Bool, true, false, not, ◌&&◌, ◌||◌, List, [], ◌∷◌, ltb, leb, ◌==◌,
  if◌then◌else◌, sub32, get_or, Option, none, some,
}
use vayu.Ibus.{IbusData}
use vayu.State.{SysState, standby, esc_calib, code, Status, ok, err_invalid, set}

abbrev pub stick_lo : ℕ
stick_lo = 1150

abbrev pub stick_hi : ℕ
stick_hi = 1850

abbrev pub gesture_hold_ms : ℕ
gesture_hold_ms = 1500

abbrev pub settle_ms : ℕ
settle_ms = 2000

abbrev pub timeout_ms : ℕ
timeout_ms = 60000

abbrev pub commit_timeout_ms : ℕ
commit_timeout_ms = 3000

-- `gesture_enter`.
unfoldable pub gesture_enter : IbusData → Bool
gesture_enter rc =
    ltb (get_or rc.channels 2 0) stick_lo
    && ltb (get_or rc.channels 1 0) stick_lo
    && ltb stick_hi (get_or rc.channels 3 0)
    && ltb (get_or rc.channels 0 0) stick_lo

-- `gesture_close`.
unfoldable pub gesture_close : IbusData → Bool
gesture_close rc =
    ltb (get_or rc.channels 2 0) stick_lo
    && ltb (get_or rc.channels 1 0) stick_lo
    && ltb (get_or rc.channels 3 0) stick_lo
    && ltb stick_hi (get_or rc.channels 0 0)

-- `esc_cal_phase_t`.
pub data Phase : Type 0 where
  off high settle : Phase

abbrev pub is_off : Phase → Bool
is_off off = true
is_off _ = false

abbrev pub is_high : Phase → Bool
is_high high = true
is_high _ = false

-- The string literals that the RC task latches.
pub data Msg : Type 0 where
  aborted_failsafe write_failed on_card write_timed_out queue_refused : Msg
  state_left timed_out min_held done : Msg

pub record Esc : Type 0 where
  pub phase : Phase
  pub request_written : Bool
  pub gesture_ms : ℕ
  pub phase_ms : ℕ
  pub holding_enter : Bool
  pub holding_close : Bool
  pub pending_msg : Option Msg
  pub awaiting_commit : Bool
  pub commit_mark : ℕ
  pub commit_wait_ms : ℕ

-- The statics as the image initialises them.
abbrev pub cold : Esc
cold = record {
  phase = off;
  request_written = false;
  gesture_ms = 0;
  phase_ms = 0;
  holding_enter = false;
  holding_close = false;
  pending_msg = none;
  awaiting_commit = false;
  commit_mark = 0;
  commit_wait_ms = 0;
}

-- What `fs_owner` answers: whether it takes a write, and its status for the internal slot.
pub record Fs : Type 0 where
  pub accepts : Bool
  pub failed : Bool
  pub committed : ℕ

-- `held_long_enough` at tick `t`: `*was`, `*since`, and the result.
unfoldable pub held_long_enough : ℕ → Bool → Bool → ℕ → Bool × ℕ × Bool
held_long_enough t held was since =
    if not held
    then (false, since, false)
    else if not was
    then (true, t, false)
    else (was, since, leb gesture_hold_ms (sub32 t since))

-- `esc_calib_service_log`: the message emitted, if any.
unfoldable pub service_log : Esc → Esc × Option Msg
service_log s = (record s { pending_msg = none }, s.pending_msg)

-- `esc_calib_finish`.
unfoldable pub finish : Msg → Esc → SysState → Esc × SysState
finish why s sys = (
  record s { phase = off; holding_enter = false; holding_close = false; pending_msg = some why },
  if code sys == code esc_calib then (set sys standby).state else sys,
)

-- What one RC frame leaves behind; `requested` says that `request_write` was called.
pub record Stepped : Type 0 where
  pub esc : Esc
  pub sys : SysState
  pub requested : Bool

abbrev keep : Esc × SysState → Stepped
keep (s, sys) = record { esc = s; sys = sys; requested = false }

-- The part of `esc_calib_rc_step` that resolves a pending request.
unfoldable pub await_commit : ℕ → Fs → Esc → Esc
await_commit now fs s =
    if fs.failed
    then record s { awaiting_commit = false; pending_msg = some write_failed }
    else if not (fs.committed == s.commit_mark)
    then record s { awaiting_commit = false; request_written = true; pending_msg = some on_card }
    else if leb commit_timeout_ms (sub32 now s.commit_wait_ms)
    then record s { awaiting_commit = false; pending_msg = some write_timed_out }
    else s

-- The part that looks for the entry gesture while no calibration runs.
unfoldable pub seek_entry : ℕ → Fs → IbusData → Esc → SysState → Stepped
unfolding held_long_enough
seek_entry now fs rc s sys =
    if not (code sys == code standby)
    then keep (record s { holding_enter = false }, sys)
    else let (was, since, held) =
        held_long_enough now (gesture_enter rc) s.holding_enter s.gesture_ms in
      let t = record s { holding_enter = was; gesture_ms = since } in
      if not held
      then keep (t, sys)
      else let u = record t { holding_enter = false } in
        if not fs.accepts
        then record {
          esc = record u { pending_msg = some queue_refused };
          sys = sys;
          requested = true;
        }
        else record {
          esc = record u {
            awaiting_commit = true;
            commit_mark = fs.committed;
            commit_wait_ms = now;
          };
          sys = sys;
          requested = true;
        }

-- The maximum is driven: the closing gesture, held, goes on to the settle phase.
unfoldable pub drive_high : ℕ → IbusData → Esc → SysState → Stepped
unfolding held_long_enough
drive_high now rc s sys =
    let (was, since, held) = held_long_enough now (gesture_close rc) s.holding_close s.gesture_ms in
    let t = record s { holding_close = was; gesture_ms = since } in
    keep (
      if held
          then record t {
            phase = settle;
            phase_ms = now;
            holding_close = false;
            pending_msg = some min_held;
          }
          else t,
      sys,
    )

-- The part that drives a calibration: state lost, time out, the closing gesture, and the settle time.
unfoldable pub drive : ℕ → IbusData → Esc → SysState → Stepped
unfolding drive_high finish
drive now rc s sys =
    if not (code sys == code esc_calib)
    then keep (
      record s {
        phase = off;
        holding_enter = false;
        holding_close = false;
        pending_msg = some state_left;
      },
      sys,
    )
    else if leb timeout_ms (sub32 now s.phase_ms)
    then keep (finish timed_out s sys)
    else if is_high s.phase
    then drive_high now rc s sys
    else if leb settle_ms (sub32 now s.phase_ms)
    then keep (finish done s sys)
    else keep (s, sys)

-- The part that answers a failsafe frame.
unfoldable pub abort : Esc → SysState → Stepped
unfolding finish
abort s sys =
    let (t, sys') = if not (is_off s.phase) then finish aborted_failsafe s sys else (s, sys) in
    keep (record t { holding_enter = false; holding_close = false }, sys')

-- `esc_calib_rc_step` on a frame; the null frame returns at once.
unfoldable pub rc_step : ℕ → Fs → IbusData → Esc → SysState → Stepped
unfolding abort await_commit seek_entry drive
rc_step now fs rc s sys =
    if rc.is_failsafe
    then abort s sys
    else if s.awaiting_commit
    then keep (await_commit now fs s, sys)
    else if is_off s.phase
    then seek_entry now fs rc s sys
    else drive now rc s sys

-- `esc_calib_output`: whether the motors are given the maximum (`1.0f`) or the minimum (`0.0f`).
unfoldable pub output_is_max : Esc → Bool
output_is_max s = is_high s.phase

-- `esc_calib_active`.
unfoldable pub active : Esc → Bool
active s = not (is_off s.phase)

-- What the card answers `request_take`: whether the marker file opens, the count that `vfs_read`
-- returns for four bytes, and the word read.
pub record Marker : Type 0 where
  pub opens : Bool
  pub count : ℕ
  pub word : ℕ

abbrev pub store_magic : ℕ
store_magic = 0x4C414345

-- `request_take`: its result, which is also whether it writes the zero word over the marker.
unfoldable pub request_take : Marker → Bool
request_take m = m.opens && (m.count == 4 && m.word == store_magic)

-- What boot leaves behind; `cleared` says that the marker was overwritten with zero.
pub record Booted : Type 0 where
  pub esc : Esc
  pub sys : SysState
  pub cleared : Bool

abbrev refused : Status → Bool
refused ok = false
refused err_invalid = true

-- `esc_calib_boot_init`.
unfoldable pub boot_init : ℕ → Marker → Esc → SysState → Booted
unfolding request_take
boot_init now m s sys =
    if not (request_take m)
    then record { esc = s; sys = sys; cleared = false }
    else if refused (set sys esc_calib).status
    then record { esc = s; sys = (set sys esc_calib).state; cleared = true }
    else record {
      esc = record s { phase = high; phase_ms = now };
      sys = (set sys esc_calib).state;
      cleared = true;
    }
