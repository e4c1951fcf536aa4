-- ===== src/Rc/Task/Tests.antt =====
-- Tests and instances for the per-frame RC policy.
use vayu.Common.{ℕ, ◌<◌, ◌≡◌, refl, true, false, [], ◌∷◌, arith, get_or}
use vayu.Ibus
use vayu.Ibus.{IbusData}
use vayu.State
use vayu.State.{standby, armed, in_air, failsafe}
use vayu.EscCalib
use vayu.Rc.Safety
use vayu.Rc.Safety.{reset_detector, arm_engaged}
use vayu.Rc.Task.{Rc, Env, judge, apply_frame}
use vayu.Rc.Task.Arming.{trips, arming_gate, trip_fails_safe}

abbrev env : Env
env = record {
  now = 500;
  degraded = false;
  fs = record { accepts = true; failed = false; committed = 0 };
}

-- Sticks: roll, pitch, throttle, yaw, arm switch.
abbrev frame : ℕ → ℕ → IbusData
frame throttle arm = record {
  channels = 1505 ∷ 1500 ∷ throttle ∷ 1400 ∷ arm ∷ 1500 ∷ [];
  is_failsafe = false;
}

abbrev ready : Rc
ready = record {
  parser = record { phase = Ibus.wait_start; buffer = []; idx = 0; checksum = 0 };
  raw = frame 1000 2000;
  safety = record {
    last_valid_frame_ms = 0;
    detector = reset_detector;
    implausible_frames = 0;
    sw_arm_request = 0;
  };
  esc = EscCalib.cold;
  sys = standby;
}

abbrev airborne : Rc
airborne = record ready { raw = frame 1600 1000; sys = in_air }

-- Three high frames after a jump have been seen.
abbrev lost : Rc
lost = record ready {
  raw = frame 1950 2000;
  sys = armed;
  safety = record {
    last_valid_frame_ms = 0;
    detector = record { prev_throttle = 1950; high_frames = 3; latched = false };
    implausible_frames = 0;
    sw_arm_request = 0;
  };
}

arms :
    ((apply_frame env ready).sys ≡ armed) × (get_or (apply_frame env ready).raw.channels 0 0 ≡ 1500)
unfolding apply_frame judge Safety.note_implausible Safety.any_implausible
    Safety.channel_implausible Safety.mark_frame_valid Safety.failsafe_step Safety.arm_engaged
    Safety.arm_preconditions_met State.set EscCalib.rc_step EscCalib.gesture_enter
arms = (refl, refl)

arming_gate_example :
    (standby ≡ standby)
    × (arm_engaged (frame 1000 2000) ready.safety ≡ true)
    × (1000 < 1100)
    × (false ≡ false)
    × (trips env ready ≡ false)
arming_gate_example = arming_gate env ready (λ e. cc) arms.0

lost-trips : trips env lost ≡ true
unfolding Safety.failsafe_step Safety.note_implausible Safety.any_implausible
    Safety.channel_implausible Safety.mark_frame_valid
lost-trips = refl

trip_fails_safe_example :
    (get_or (apply_frame env lost).raw.channels 2 0 ≡ 1000)
    × ((apply_frame env lost).raw.is_failsafe ≡ true)
    × ((apply_frame env lost).sys ≡ failsafe)
trip_fails_safe_example = trip_fails_safe env lost lost-trips (omega arith)

abbrev throttle_up : Rc
throttle_up = record ready { raw = frame 1300 2000 }
