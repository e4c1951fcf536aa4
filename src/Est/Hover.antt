-- ===== src/Est/Hover.antt =====
-- firmware/src/est/hover_estimate.c and its header.
pub mod Band
mod Tests
use vayu.Common.{ℕ, Bool, true, false, not, ◌&&◌, if◌then◌else◌}
use vayu.Maths.{Float}

-- `hover_est_t`.
pub record Hover (F : Type 0) : Type 0 where
  pub estimate : F
  pub measured : Bool
  pub settle_t : F

-- The arguments of one update.
pub record Sample (F : Type 0) : Type 0 where
  pub in_air : Bool
  pub collective : F
  pub climb_rate : F
  pub vert_accel : F
  pub cos_tilt : F
  pub dt : F

module _ {F : Type 0} (fl : Float F) where
  abbrev pub zero_f : F
  zero_f = fl.lit 0 0

  abbrev pub climb_max_ms : F
  climb_max_ms = fl.lit 30 2

  abbrev pub accel_max : F
  accel_max = fl.lit 50 2

  abbrev pub cos_tilt_min : F
  cos_tilt_min = fl.lit 95 2

  abbrev pub settle_s : F
  settle_s = fl.lit 50 2

  abbrev pub min_est : F
  min_est = fl.lit 10 2

  abbrev pub max_est : F
  max_est = fl.lit 80 2

  abbrev pub slew_per_s : F
  slew_per_s = fl.lit 5 2

  -- `clampf`.
  abbrev pub clampf : F → F → F → F
  clampf v lo hi = if fl.lt v lo then lo else if fl.lt hi v then hi else v

  -- `hover_est_init`.
  unfoldable pub init : F → Hover F
  init initial = record {
    estimate = clampf initial min_est max_est;
    measured = false;
    settle_t = zero_f;
  }

  -- `steady`.
  abbrev pub steady : Sample F → Bool
  steady x =
      x.in_air
      && fl.lt zero_f x.dt
      && fl.lt (fl.fabs x.climb_rate) climb_max_ms
      && fl.lt (fl.fabs x.vert_accel) accel_max
      && fl.lt cos_tilt_min x.cos_tilt
      && fl.lt min_est x.collective
      && fl.lt x.collective max_est

  -- The slew towards the observation.
  abbrev pub slewed : F → F → F
  slewed err step =
      if fl.lt step err then step else if fl.lt err (fl.neg step) then fl.neg step else err

  -- `hover_est_update`; the estimate is what it returns.
  unfoldable pub update : Sample F → Hover F → Hover F
  update x h =
      let t = fl.add h.settle_t x.dt in
      let err = slewed (fl.sub x.collective h.estimate) (fl.mul slew_per_s x.dt) in
      if not (steady x)
      then record h { settle_t = zero_f }
      else if fl.lt t settle_s
      then record h { settle_t = t }
      else record {
        estimate = clampf (fl.add h.estimate err) min_est max_est;
        measured = true;
        settle_t = t;
      }
