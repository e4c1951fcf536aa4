-- ===== src/Est/Phase/Tests.antt =====
-- A landing and a climb in fixed point, for firmware/src/est/flight_phase.c.
use vayu.Common.{◌≡◌, refl, true, false, [], ◌∷◌, ℤ, pos, Option, some}
use vayu.Maths.Fixed.{fixed}
use vayu.Est.Phase.{Phase, Sample, run}
use vayu.Est.Phase.Takeoff.{still, more, any_takeoff, no_takeoff_unpowered}

-- On the ground, just before the landing debounce ends.
abbrev settling : Phase (Option ℤ)
settling = record {
  ground_ref = some (pos 0);
  have_ref = true;
  agl = some (pos 0);
  powered = false;
  tof_ground_ref = some (pos 0);
  have_tof_ref = false;
  tof_active = false;
  takeoff_timer = some (pos 0);
  land_timer = some (pos 690000);
}

abbrev calm : Sample (Option ℤ)
calm = record {
  armed = true;
  in_air = true;
  fused_alt = some (pos 50000);
  baro_alt = some (pos 0);
  tof_range = some (pos 0);
  tof_valid = false;
  climb_rate = some (pos 0);
  throttle = some (pos 100000);
  dt = some (pos 20000);
}

-- A climb without throttle.
abbrev lifted : Sample (Option ℤ)
lifted = record calm {
  in_air = false;
  fused_alt = some (pos 2000000);
  climb_rate = some (pos 900000);
}

no_takeoff_unpowered_example :
    (any_takeoff (run fixed (lifted ∷ calm ∷ []) settling).0 ≡ false)
    × ((run fixed (lifted ∷ calm ∷ []) settling).1.powered ≡ false)
no_takeoff_unpowered_example =
    no_takeoff_unpowered fixed (lifted ∷ calm ∷ []) settling refl (more refl (more refl still))
