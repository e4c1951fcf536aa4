-- ===== src/Rc/Safety.antt =====
-- firmware/src/comm/rc_safety.c. The statics are the record `Safety`; `v_get_ticks` and
-- `estimator_is_degraded` are arguments.
pub mod Link
pub mod Failsafe
mod Tests
use vayu.Common.{
  ℕ, zero, suc, ◌+◌, ◌-◌, ◌<◌, ◌≤◌, Bool, true, false, not, ◌&&◌, ◌||◌, List, [], ◌∷◌, ltb, leb,
  ◌==◌, if◌then◌else◌, u32, sub16, sub32, get_or, Option, none, some,
}
use vayu.Ibus.{IbusData}
use vayu.State.{SysState, standby, prearm, armed, in_air, failsafe, esc_calib, code, set}

abbrev pub rc_loss_timeout_ms : ℕ
rc_loss_timeout_ms = 1000

abbrev pub rc_loss_detect_ms : ℕ
rc_loss_detect_ms = 100

abbrev pub failsafe_throttle_raw : ℕ
failsafe_throttle_raw = 1900

abbrev pub failsafe_jump_delta : ℕ
failsafe_jump_delta = 300

abbrev pub failsafe_hold_frames : ℕ
failsafe_hold_frames = 4

abbrev pub throttle_min_raw : ℕ
throttle_min_raw = 1000

abbrev pub raw_min_valid : ℕ
raw_min_valid = 900

abbrev pub raw_max_valid : ℕ
raw_max_valid = 2100

abbrev pub arm_throttle_max_raw : ℕ
arm_throttle_max_raw = 1100

-- The throttle-failsafe detector's statics.
pub record Detector : Type 0 where
  pub prev_throttle : ℕ
  pub high_frames : ℕ
  pub latched : Bool

pub record Safety : Type 0 where
  pub last_valid_frame_ms : ℕ
  pub detector : Detector
  pub implausible_frames : ℕ
  pub sw_arm_request : ℕ

-- `rc_mark_frame_valid`, at the tick count `now`.
unfoldable pub mark_frame_valid : ℕ → Safety → Safety
mark_frame_valid now s = record s { last_valid_frame_ms = now }

-- `rc_has_signal`.
unfoldable pub has_signal : ℕ → Safety → Bool
has_signal now s = leb (sub32 now s.last_valid_frame_ms) rc_loss_timeout_ms

-- `rc_loss`.
unfoldable pub rc_loss : ℕ → Safety → Bool
rc_loss now s = ltb rc_loss_detect_ms (sub32 now s.last_valid_frame_ms)

-- `rc_throttle_failsafe_reset`.
abbrev pub reset_detector : Detector
reset_detector = record { prev_throttle = throttle_min_raw; high_frames = 0; latched = false }

-- `rc_throttle_failsafe_step`: the detector that it leaves and what it returns.
unfoldable pub failsafe_step : Detector → ℕ → Detector × Bool
failsafe_step s raw =
    let high = ltb failsafe_throttle_raw raw in
    let jumped =
      high && ltb s.prev_throttle raw && leb failsafe_jump_delta (sub16 raw s.prev_throttle) in
    let t = record s { prev_throttle = raw } in
    if not high
    then (record t { high_frames = 0; latched = false }, false)
    else if t.high_frames == 0 && not jumped
    then (t, false)
    else let frames =
        if ltb t.high_frames failsafe_hold_frames then t.high_frames + 1 else t.high_frames in
      let l = if leb failsafe_hold_frames frames then true else t.latched in
      (record t { high_frames = frames; latched = l }, l)

-- `rc_channel_implausible`.
unfoldable pub channel_implausible : ℕ → Bool
channel_implausible raw = ltb raw raw_min_valid || ltb raw_max_valid raw

-- The loop of `rc_note_implausible`: `n` channels from index `i` on.
unfoldable pub any_implausible : List ℕ → ℕ → ℕ → Bool
any_implausible channels zero i = false
any_implausible channels (suc n) i =
    if channel_implausible (get_or channels i 0) then true else any_implausible channels n (i + 1)

-- `rc_note_implausible`.
unfoldable pub note_implausible : Option IbusData → Safety → Safety × Bool
note_implausible none s = (s, false)
note_implausible (some d) s =
    if any_implausible d.channels 4 0
    then (record s { implausible_frames = u32 (s.implausible_frames + 1) }, true)
    else (s, false)

-- `rc_watchdog_active_for`.
abbrev pub watchdog_active_for : SysState → Bool
watchdog_active_for s =
    code s == code standby
    || code s == code prearm
    || code s == code armed
    || code s == code in_air
    || code s == code esc_calib

-- `arm_preconditions_met`.
unfoldable pub arm_preconditions_met : IbusData → ℕ → Bool → Safety → Bool
unfolding has_signal
arm_preconditions_met rc now degraded s =
    ltb (get_or rc.channels 2 0) arm_throttle_max_raw && has_signal now s && not degraded

-- `rc_arm_engaged`.
unfoldable pub arm_engaged : IbusData → Safety → Bool
arm_engaged rc s = ltb 1500 (get_or rc.channels 4 0) || not (s.sw_arm_request == 0)

-- `rc_watchdog_step`, on the system state that it reads.
unfoldable pub watchdog_step : ℕ → Safety → SysState → SysState
unfolding has_signal
watchdog_step now s cur =
    if not (has_signal now s) && watchdog_active_for cur && not (code cur == code failsafe)
    then (set cur failsafe).state
    else cur
