-- ===== src/Est/Hover/Tests.antt =====
-- A seed above the band, for firmware/src/est/hover_estimate.c.
use vayu.Common.{◌≡◌, refl, true, ℤ, pos, Option, some}
use vayu.Maths.Fixed.{fixed}
use vayu.Est.Hover.{Sample, init, update}

abbrev hovering : Sample (Option ℤ)
hovering = record {
  in_air = true;
  collective = some (pos 790000);
  climb_rate = some (pos 0);
  vert_accel = some (pos 0);
  cos_tilt = some (pos 1000000);
  dt = some (pos 600000);
}

-- The seed of 0.95 is cut to 0.80, and two steady samples at 0.79 bring it there.
settled :
    (update fixed hovering (update fixed hovering (init fixed (some (pos 950000))))).estimate
    ≡ some (pos 790000)
unfolding update init
settled = refl
