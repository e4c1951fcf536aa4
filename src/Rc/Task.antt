-- ===== src/Rc/Task.antt =====
-- firmware/src/comm/rc_task.c: `rc_apply_frame`, the policy applied once to each complete iBus frame,
-- and the watchdog step that follows the drain of the receive ring. `ibus_raw_data`, the safety
-- statics, the ESC calibration and the system state are one record.
pub mod Arming
mod Tests
use vayu.Common.{
  ℕ, zero, suc, ◌+◌, ◌-◌, none, Bool, true, false, not, ◌&&◌, ◌||◌, List, [], ◌∷◌, ltb, ◌==◌,
  if◌then◌else◌, get_or, set, some, Option,
}
use vayu.Ibus
use vayu.Ibus.{IbusData, Parser}
use vayu.State
use vayu.State.{SysState, standby, armed, in_air, failsafe, code}
use vayu.EscCalib
use vayu.EscCalib.{Esc, Fs}
use vayu.Rc.Safety.{
  Safety, Detector, mark_frame_valid, note_implausible, failsafe_step, arm_engaged,
  arm_preconditions_met, watchdog_step, throttle_min_raw,
}

-- `RADIO_AVOID_BAND`.
abbrev pub avoid_band : ℕ
avoid_band = 10

pub record Rc : Type 0 where
  pub parser : Parser
  pub raw : IbusData
  pub safety : Safety
  pub esc : Esc
  pub sys : SysState

-- What the frame reads of the rest of the system: the tick count, whether the estimator is degraded, and
-- the file-system owner's answers.
pub record Env : Type 0 where
  pub now : ℕ
  pub degraded : Bool
  pub fs : Fs

-- The body of the deadband loop at index `i`; the throttle, index 2, is skipped.
abbrev pub centre : ℕ → List ℕ → List ℕ
centre i ch =
    if not (i == 2)
      && (ltb (1500 - avoid_band) (get_or ch i 0) && ltb (get_or ch i 0) (1500 + avoid_band))
    then set ch i 1500
    else ch

-- The deadband loop: `n` channels from index `i` on.
abbrev pub deadband : List ℕ → ℕ → ℕ → List ℕ
deadband ch zero i = ch
deadband ch (suc n) i = deadband (centre i ch) n (i + 1)

-- The arm and disarm policy of a frame that is no failsafe frame.
unfoldable pub arm_policy : IbusData → Env → Safety → SysState → SysState
arm_policy rc env s sys =
    if arm_engaged rc s
    then if code sys == code standby && arm_preconditions_met rc env.now env.degraded s
      then (State.set sys armed).state
      else if code sys == code standby
      then (State.set sys failsafe).state
      else sys
    else if code sys == code armed || (code sys == code in_air || code sys == code failsafe)
    then (State.set sys standby).state
    else sys

-- The frame and the state once the throttle failsafe has been judged.
unfoldable pub judge : Bool → IbusData → Env → Safety → SysState → IbusData × SysState
unfolding arm_policy
judge true rc env s sys = (
  record { channels = set rc.channels 2 throttle_min_raw; is_failsafe = true },
  (State.set sys failsafe).state,
)
judge false rc env s sys =
    (record rc { is_failsafe = false }, arm_policy (record rc { is_failsafe = false }) env s sys)

-- The first lines of `rc_apply_frame`: the link clock and the plausibility count.
abbrev pub noted : Env → Rc → Safety
noted env r = (note_implausible (some r.raw) (mark_frame_valid env.now r.safety)).0

abbrev pub banded : Rc → IbusData
banded r = record r.raw { channels = deadband r.raw.channels 4 0 }

-- The detector's step on the frame's throttle.
abbrev pub detected : Env → Rc → Detector × Bool
detected env r = failsafe_step (noted env r).detector (get_or (banded r).channels 2 0)

abbrev pub judged : Env → Rc → IbusData × SysState
judged env r =
    judge (detected env r).1 (banded r) env (record (noted env r) { detector = (detected env r).0 })
      r.sys

-- `rc_apply_frame`. The frame that it leaves in `raw` is the one that goes to the recorder and to the
-- control and telemetry queues.
unfoldable pub apply_frame : Env → Rc → Rc
apply_frame env r =
    let (out, sys) = judged env r in
    let e = EscCalib.rc_step env.now env.fs out r.esc sys in
    record {
      parser = r.parser;
      raw = out;
      safety = record (noted env r) { detector = (detected env r).0 };
      esc = e.esc;
      sys = e.sys;
    }

abbrev out_or : IbusData → Option IbusData → IbusData
out_or d none = d
out_or d (some x) = x

-- One byte of the receive ring: `ibus_parse_byte`, and the policy once a frame is complete.
unfoldable pub take_byte : Env → ℕ → Rc → Rc
take_byte env b r =
    let p = Ibus.parse_byte r.parser b (some r.raw) in
    let r' = record r { parser = p.parser; raw = out_or r.raw p.out } in
    if p.complete then apply_frame env r' else r'

-- The bytes drained in one pass, then `rc_watchdog_step`.
unfoldable pub drain : Env → List ℕ → Rc → Rc
drain env [] r = record r { sys = watchdog_step env.now r.safety r.sys }
drain env (b ∷ bs) r = drain env bs (take_byte env b r)
