-- ===== src/PidConfig/Tests.antt =====
-- A tune in fixed point, for firmware/src/control/pid_config.c.
use vayu.Common.{
  ℕ, ◌*◌, ◌/◌, ◌≡◌, refl, true, false, Option, none, some, List, [], ◌∷◌, get_or, ℤ, pos, negsuc,
}
use vayu.Maths.Fixed.{fixed, unit}
use vayu.Control.Pid.{Pid, init, set_gains}
use vayu.PidConfig.{
  Detection, PidGains, Store, Live, config_init, apply_gains, save, restore, rate_axis, get_slot,
  get_d_lpf, notch_set_params,
}
use vayu.PidConfig.Commands.{apply_command, apply_gyro_notch, set_slot}
use vayu.PidConfig.Reboot.{SameTune, run, boot, next_file, reboot_restores}
use vayu.PidConfig.Obeyed.{Command, pid_command, notch_command, obey}

abbrev byte_f : List ℕ → Option ℤ
byte_f bs = some (pos (get_or bs 0 0 * unit))

abbrev whole : Option ℤ → ℤ
whole none = negsuc 0
whole (some (pos n)) = pos (n / unit)
whole (some (negsuc n)) = negsuc (n / unit)

abbrev gain : Option ℤ
gain = some (pos 3000)

abbrev factory : Pid (Option ℤ)
factory = record {
  kp = gain;
  ki = gain;
  kd = gain;
  kff = gain;
  i_max = gain;
  d_max = gain;
  d_lpf_rc = gain;
  d_filtered = gain;
  integral = gain;
  prev_meas = gain;
  out_min = gain;
  out_max = gain;
  sat_excess = gain;
  initialized = false;
}

abbrev band : Detection (Option ℤ)
band = record { q = gain; fmin_hz = gain; fmax_hz = gain; min_ratio = gain }

abbrev pub board : Live (Option ℤ)
board = record {
  rate = λ i. factory;
  angle = λ i. factory;
  gyro_rc = λ i. gain;
  bank = some band;
  notch_on = false;
}

abbrev empty_slot : PidGains (Option ℤ)
empty_slot = record { kp = none; ki = none; kd = none; kff = none; valid = false }

abbrev pub blank : Store (Option ℤ)
blank = record {
  magic = 0;
  gains = λ c i. empty_slot;
  gyro_lpf = λ i. none;
  gyro_lpf_valid = λ i. false;
  d_lpf = λ i. none;
  d_lpf_valid = λ i. false;
  notch = band;
  notch_enabled = false;
  notch_valid = false;
  motor_pos_x = λ i. none;
  motor_pos_y = λ i. none;
  motor_spin = λ i. pos 0;
  motor_geom_valid = false;
}

-- Rate controller, pitch, gains 5, 6, 7 and 8.
abbrev pitch_gains : List ℕ
pitch_gains =
    3 ∷ 0 ∷ 6 ∷ 1 ∷ 0 ∷ 0 ∷ 0 ∷ 1 ∷ 0 ∷ 0 ∷ 0 ∷ 5 ∷ 0 ∷ 0 ∷ 0 ∷ 6 ∷ 0 ∷ 0 ∷ 0 ∷ 7 ∷ 0 ∷ 0 ∷ 0 ∷ 8
    ∷ 0 ∷ 0 ∷ 0 ∷ []

abbrev session : List (Command (Option ℤ))
session = pid_command (some pitch_gains) 27 ∷ notch_command true band ∷ []

pitch_set :
    ((run fixed byte_f whole session (boot fixed none blank board)).live.rate 1).kp
    ≡ some (pos (5 * unit))
unfolding run obey apply_command apply_gyro_notch set_slot apply_gains set_gains boot restore
    rate_axis get_slot get_d_lpf config_init init save notch_set_params
pitch_set = refl

reboot_restores_example :
    let t = run fixed byte_f whole session (boot fixed none blank board) in
    SameTune (boot fixed (next_file none t.saved) blank board).live t.live
reboot_restores_example =
    reboot_restores fixed byte_f whole session none blank board refl refl (refl, refl, refl, refl)
