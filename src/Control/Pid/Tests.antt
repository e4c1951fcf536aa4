-- ===== src/Control/Pid/Tests.antt =====
-- A controller in fixed point, for firmware/src/control/pid.c.
use vayu.Common.{refl, List, [], ◌∷◌, ℤ, pos, negsuc, Option, some, true}
use vayu.Maths.{IsWithin}
use vayu.Maths.Fixed.{fixed, fixed-IsOrder}
use vayu.Control.Pid.{Pid, update}
use vayu.Control.Pid.Bounds.{Call, step, excess, calls, limits_hold}

-- Gains of 1, an integral limit of 0.2 and outputs from -1 to 1.
abbrev roll : Pid (Option ℤ)
roll = record {
  kp = some (pos 1000000);
  ki = some (pos 1000000);
  kd = some (pos 1000);
  kff = some (pos 0);
  i_max = some (pos 200000);
  d_max = some (pos 200000);
  d_lpf_rc = some (pos 10000);
  d_filtered = some (pos 0);
  integral = some (pos 100000);
  prev_meas = some (pos 0);
  out_min = some (negsuc 999999);
  out_max = some (pos 1000000);
  sat_excess = some (pos 0);
  initialized = true;
}

abbrev history : List (Call (Option ℤ))
history =
    step (some (pos 900000)) (some (pos 100000)) (some (pos 0)) (some (pos 1000))
    ∷ excess (some (pos 500))
    ∷ []

limits_hold_example :
    IsWithin fixed
      (fixed.neg (calls fixed history roll).i_max)
      (calls fixed history roll).i_max
      (calls fixed history roll).integral
    × IsWithin fixed
        (calls fixed history roll).out_min
        (calls fixed history roll).out_max
        (update fixed
          (some (pos 900000))
          (some (pos 0))
          (some (pos 0))
          (some (pos 1000))
          (calls fixed history roll)).0
limits_hold_example =
    limits_hold fixed history roll (some (pos 900000)) (some (pos 0)) (some (pos 0))
      (some (pos 1000)) fixed-IsOrder
      (record {
        integral_within = record { above = refl; below = refl };
        i_order = refl;
        zero_within = record { above = refl; below = refl };
        out_order = refl;
      })
      refl
