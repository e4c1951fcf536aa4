-- ===== src/Control/Indi.antt =====
-- firmware/src/control/rate_indi.c and its header.
pub mod Limits
use vayu.Common.{ℕ, Bool, true, false, not, ◌||◌, if◌then◌else◌}
use vayu.Maths.{Float}

-- `rate_indi_t`.
pub record Indi (F : Type 0) : Type 0 where
  pub b : F
  pub k : F
  pub lpf_rc : F
  pub out_min : F
  pub out_max : F
  pub gyr_f : F
  pub wdot_f : F
  pub u_f : F
  pub initialized : Bool

module _ {F : Type 0} (fl : Float F) where
  abbrev pub zero_f : F
  zero_f = fl.lit 0 0

  -- `rate_indi_reset`.
  unfoldable pub reset : Indi F → Indi F
  reset c = record c { gyr_f = zero_f; wdot_f = zero_f; u_f = zero_f; initialized = false }

  -- `rate_indi_init`.
  unfoldable pub init : F → F → F → F → F → Indi F
  init b k lpf_rc lo hi = record {
    b = if fl.lt (fl.lit 1 6) (fl.fabs b) then b else fl.lit 1 6;
    k = k;
    lpf_rc = if fl.lt zero_f lpf_rc then lpf_rc else zero_f;
    out_min = if fl.lt lo hi then lo else hi;
    out_max = if fl.lt lo hi then hi else lo;
    gyr_f = zero_f;
    wdot_f = zero_f;
    u_f = zero_f;
    initialized = false;
  }

  -- `alpha`.
  abbrev pub alpha : F → Indi F → F
  alpha dt c = if fl.lt (fl.lit 1 6) c.lpf_rc then fl.div dt (fl.add dt c.lpf_rc) else fl.lit 1 0

  -- One step of the filters: `value` moved towards `input`.
  abbrev pub blend : F → F → F → F
  blend a input value = fl.add value (fl.mul a (fl.sub input value))

  -- The clamp of the command.
  unfoldable pub limited : F → Indi F → F
  limited u c =
      let v = if fl.lt u c.out_min then c.out_min else u in
      if fl.lt c.out_max v then c.out_max else v

  -- `rate_indi_update`: the command and the controller.
  unfoldable pub update : F → F → F → Indi F → F × Indi F
  update rate_sp rate_meas dt c =
      if not c.initialized || fl.le dt zero_f
      then (zero_f, record c { gyr_f = rate_meas; wdot_f = zero_f; initialized = true })
      else let a = alpha dt c in
        let gyr = blend a rate_meas c.gyr_f in
        let wdot = blend a (fl.div (fl.sub gyr c.gyr_f) dt) c.wdot_f in
        let wdot_des = fl.mul c.k (fl.sub rate_sp rate_meas) in
        let u = limited (fl.add c.u_f (fl.div (fl.sub wdot_des wdot) c.b)) c in
        (u, record c { gyr_f = gyr; wdot_f = wdot; u_f = blend a u c.u_f })

  -- `rate_indi_set_applied`.
  unfoldable pub set_applied : F → Indi F → Indi F
  set_applied applied c = if not (fl.is_finite applied) then c else record c {
    u_f = blend (if fl.lt (fl.lit 1 6) c.lpf_rc then fl.lit 5 1 else fl.lit 1 0) applied c.u_f;
  }
