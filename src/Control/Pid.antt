-- ===== src/Control/Pid.antt =====
-- firmware/src/control/pid.c and its header.
pub mod Bounds
mod Tests
use vayu.Common.{ℕ, Bool, true, false, not, ◌&&◌, ◌||◌, if◌then◌else◌}
use vayu.Maths.{Float, m_clamp}

-- `struct PID`.
pub record Pid (F : Type 0) : Type 0 where
  pub kp : F
  pub ki : F
  pub kd : F
  pub kff : F
  pub i_max : F
  pub d_max : F
  pub d_lpf_rc : F
  pub d_filtered : F
  pub integral : F
  pub prev_meas : F
  pub out_min : F
  pub out_max : F
  pub sat_excess : F
  pub initialized : Bool

module _ {F : Type 0} (fl : Float F) where
  abbrev pub zero_f : F
  zero_f = fl.lit 0 0

  -- `v_pid_init`.
  unfoldable pub init : F → F → F → F → F → F → F → F → F → Pid F
  init kp ki kd kff i_max d_max d_lpf_rc out_min out_max = record {
    kp = kp;
    ki = ki;
    kd = kd;
    kff = kff;
    i_max = i_max;
    d_max = d_max;
    d_lpf_rc = d_lpf_rc;
    d_filtered = zero_f;
    integral = zero_f;
    prev_meas = zero_f;
    out_min = out_min;
    out_max = out_max;
    sat_excess = zero_f;
    initialized = false;
  }

  -- The state after the first measurement is taken over.
  abbrev pub seeded : F → Pid F → Pid F
  seeded meas p =
      if p.initialized
      then p
      else record p { prev_meas = meas; d_filtered = zero_f; initialized = true }

  -- The clamped integral that the step would store.
  abbrev pub i_term : F → F → Pid F → F
  i_term error dt p =
      m_clamp fl (fl.add p.integral (fl.mul (fl.mul p.ki error) dt)) (fl.neg p.i_max) p.i_max

  -- The derivative on the measurement.
  abbrev pub d_raw : F → F → Pid F → F
  d_raw meas dt p = fl.div (fl.mul (fl.neg p.kd) (fl.sub meas p.prev_meas)) dt

  -- The filter on it: the D term and `d_filtered`.
  abbrev pub d_term : F → F → Pid F → F × F
  d_term raw dt p =
      if fl.lt (fl.lit 1 6) p.d_lpf_rc
      then (let alpha = fl.div dt (fl.add dt p.d_lpf_rc) in
          let filtered = fl.add p.d_filtered (fl.mul alpha (fl.sub raw p.d_filtered)) in
          (m_clamp fl filtered (fl.neg p.d_max) p.d_max, filtered))
      else (m_clamp fl raw (fl.neg p.d_max) p.d_max, p.d_filtered)

  -- `into_limit`.
  abbrev pub into_limit : F → Pid F → Bool
  into_limit error p =
      (fl.lt (fl.lit 1 4) p.sat_excess && fl.lt zero_f error)
      || (fl.lt p.sat_excess (fl.neg (fl.lit 1 4)) && fl.lt error zero_f)

  -- Whether the step stores its integral.
  abbrev pub stores : F → F → Pid F → Bool
  stores error output_pi p =
      not (into_limit error p) && (fl.lt p.out_min output_pi && fl.lt output_pi p.out_max)

  -- `v_pid_update`: the output and the controller.
  unfoldable pub update : F → F → F → F → Pid F → F × Pid F
  update sp meas sp_dot dt pid =
      if fl.le dt (fl.lit 1 6)
      then (zero_f, pid)
      else let p = seeded meas pid in
        let error = fl.sub sp meas in
        let i = i_term error dt p in
        let (d, filtered) = d_term (d_raw meas dt p) dt p in
        let ff = fl.mul p.kff sp_dot in
        let output_pi = fl.add (fl.mul p.kp error) i in
        let output_full = fl.add (fl.add output_pi d) ff in
        (
          m_clamp fl output_full p.out_min p.out_max,
          record p {
            d_filtered = filtered;
            prev_meas = meas;
            integral = if stores error output_pi p then i else p.integral;
          },
        )

  -- `v_pid_set_sat_excess`, with a controller that is there.
  unfoldable pub set_sat_excess : F → Pid F → Pid F
  set_sat_excess excess p = record p { sat_excess = excess }

  -- `v_pid_reset`.
  unfoldable pub reset : Pid F → Pid F
  reset p = record p {
    integral = zero_f;
    sat_excess = zero_f;
    prev_meas = zero_f;
    d_filtered = zero_f;
    initialized = false;
  }

  -- `v_pid_set_gains`.
  unfoldable pub set_gains : F → F → F → F → Pid F → Pid F
  set_gains kp ki kd kff p = record p { kp = kp; ki = ki; kd = kd; kff = kff }

  -- `v_pid_set_limits`.
  unfoldable pub set_limits : F → F → Pid F → Pid F
  set_limits a b p = record p {
    out_min = if fl.lt a b then a else b;
    out_max = if fl.lt a b then b else a;
  }

  -- `v_pid_set_i_max`.
  unfoldable pub set_i_max : F → Pid F → Pid F
  set_i_max i_max p = record p { i_max = i_max }

  -- `v_pid_set_d_lpf_rc`.
  unfoldable pub set_d_lpf_rc : F → Pid F → Pid F
  set_d_lpf_rc rc p = record p {
    d_lpf_rc = if fl.lt zero_f rc then rc else zero_f;
    d_filtered = zero_f;
  }

  -- `v_pid_set_prev_meas`.
  unfoldable pub set_prev_meas : F → Pid F → Pid F
  set_prev_meas meas p = record p { prev_meas = meas; initialized = false }

  -- `v_pid_set_integral`.
  unfoldable pub set_integral : F → Pid F → Pid F
  set_integral integral p = record p { integral = m_clamp fl integral (fl.neg p.i_max) p.i_max }
