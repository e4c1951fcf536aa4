-- ===== src/EscCalib/Tests.antt =====
-- Tests and instances for ESC calibration.
use vayu.Common.{ℕ, ◌<◌, ◌≡◌, refl, true, false, [], ◌∷◌, sub32, arith}
use vayu.Ibus.{IbusData}
use vayu.State.{standby, esc_calib}
use vayu.EscCalib.{gesture_close, Esc, Fs, high, cold, rc_step, output_is_max, gesture_enter}
use vayu.EscCalib.Safety.{IsValid, max_only_kept}
use vayu.EscCalib.Gesture.{Tick, step, run}

abbrev entry_sticks : IbusData
entry_sticks = record { channels = 1000 ∷ 1000 ∷ 1000 ∷ 2000 ∷ 1000 ∷ []; is_failsafe = false }

abbrev quiet_fs : Fs
quiet_fs = record { accepts = true; failed = false; committed = 7 }

abbrev frame_at : ℕ → Tick
frame_at t = record { now = t; fs = quiet_fs; rc = entry_sticks; sys = standby }

-- Gesture held from 100 ms on: the frame at 1600 ms requests, the one at 1599 ms does not.
held_gesture :
    ((step (frame_at 1599) (run (frame_at 900 ∷ frame_at 100 ∷ []))).requested ≡ false)
    × ((step (frame_at 1600) (run (frame_at 900 ∷ frame_at 100 ∷ []))).requested ≡ true)
unfolding run rc_step gesture_enter
held_gesture = (refl, refl)

abbrev driving : Esc
driving = record cold { phase = high; phase_ms = 10 }

abbrev awaiting : Esc
awaiting = record cold { awaiting_commit = true; commit_mark = 6; commit_wait_ms = 50 }

abbrev centred : IbusData
centred = record { channels = 1500 ∷ 1500 ∷ 1500 ∷ 1500 ∷ 1000 ∷ []; is_failsafe = false }

driving-IsValid : IsValid driving
driving-IsValid = ground arith

max_only_kept_example :
    (output_is_max driving ≡ true)
    × (centred.is_failsafe ≡ false)
    × (esc_calib ≡ esc_calib)
    × ((rc_step 20 quiet_fs centred driving esc_calib).sys ≡ esc_calib)
    × (sub32 20 10 < 60000)
    × ((rc_step 20 quiet_fs centred driving esc_calib).esc.phase_ms ≡ 10)
unfolding rc_step output_is_max gesture_close
max_only_kept_example = max_only_kept 20 quiet_fs centred driving esc_calib driving-IsValid refl
