-- ===== src/Control/Height/Tests.antt =====
-- A climb in fixed point, for firmware/src/control/height_controller.c.
use vayu.Common.{
  ◌≡◌, ◌⊎◌, refl, true, false, List, [], ◌∷◌, ℤ, pos, negsuc, Option, none, some, arith,
}
use vayu.Maths.Fixed.{fixed, fixed-IsOrder, less, test}
use vayu.Control.Height.{Mode, hold, off, Height, Input, reset, update, thr_max}
use vayu.Control.Height.Ceiling.{IsLadder, steps, collective_capped}

less_trans : (a b c : ℤ) → less a b ≡ true → less b c ≡ true → less a c ≡ true
less_trans (pos a) (pos b) (pos c) h g = ground (arith, h, g)
less_trans (pos a) (pos b) (negsuc c) h g = absurd (ground (arith, g))
less_trans (pos a) (negsuc b) c h g = absurd (ground (arith, h))
less_trans (negsuc a) (pos b) (pos c) h g = refl
less_trans (negsuc a) (pos b) (negsuc c) h g = absurd (ground (arith, g))
less_trans (negsuc a) (negsuc b) (pos c) h g = refl
less_trans (negsuc a) (negsuc b) (negsuc c) h g = ground (arith, h, g)

test_trans : (a b c : Option ℤ) → test less a b ≡ true → test less b c ≡ true → test less a c ≡ true
test_trans none b c h g = absurd (ground (arith, h))
test_trans (some a) none c h g = absurd (ground (arith, h))
test_trans (some a) (some b) none h g = absurd (ground (arith, g))
test_trans (some a) (some b) (some c) h g = less_trans a b c h g

fixed-IsLadder : IsLadder fixed
fixed-IsLadder = record {
  irrefl = fixed-IsOrder.irrefl;
  trans = test_trans;
  min_under = refl;
  idle_under = refl;
}

abbrev blank : Height (Option ℤ)
blank = record {
  engaged = true;
  src_is_tof = true;
  landed = true;
  lifting_off = false;
  failed = true;
  runaway_t = none;
  handback = true;
  handback_thr = none;
  last_out = none;
  alt_sp = none;
  base = none;
  i = none;
}

-- In the air at this height, with the stick at 0.31 and a hover reference of 0.4.
abbrev at : ℤ → Input (Option ℤ)
at z = record {
  in_air = true;
  stick = some (pos 310000);
  alt_m = some z;
  alt_is_tof = true;
  climb_rate = some (pos 0);
  dt = some (pos 1000000);
  hover_ref = some (pos 400000);
}

-- The runaway guard trips on the second of these heights and hands back.
abbrev ride : List (Mode × Input (Option ℤ))
ride = (hold, at (pos 1000000)) ∷ (hold, at (pos 4000000)) ∷ []

runaway_trips : (steps fixed ride (reset fixed blank)).failed ≡ true
unfolding steps update reset
runaway_trips = refl

collective_capped_example :
    let out = (update fixed off (at (pos 4000000)) (steps fixed ride (reset fixed blank))).0 in
    (out ≡ some (pos 310000)) ⊎ (fixed.lt (thr_max fixed) out ≡ false)
collective_capped_example = collective_capped fixed ride blank off (at (pos 4000000)) fixed-IsLadder
