-- ===== src/Control/Mixer/Tests.antt =====
-- A quadrotor in fixed point, for firmware/src/control/mixer.c.
use vayu.Common.{◌≡◌, refl, [], ◌∷◌, length, ℤ, pos, negsuc, Option, none, some}
use vayu.Maths.Fixed.{fixed, fixed-IsOrder}
use vayu.Control.Mixer.{Mixer, Wrench, disabled, rp, allocate}
use vayu.Control.Mixer.Limits.{IsAll, IsCommand, allocate_commands}

abbrev plus_one : Option ℤ
plus_one = some (pos 1000000)

abbrev minus_one : Option ℤ
minus_one = some (negsuc 999999)

abbrev quad : Mixer (Option ℤ)
quad = record {
  b = record {
    roll = minus_one ∷ plus_one ∷ [];
    pitch = plus_one ∷ minus_one ∷ [];
    yaw = plus_one ∷ minus_one ∷ [];
    thrust = plus_one ∷ plus_one ∷ [];
  };
  b_pinv =
      record { roll = minus_one; pitch = plus_one; yaw = plus_one; thrust = plus_one }
      ∷ record { roll = plus_one; pitch = minus_one; yaw = minus_one; thrust = plus_one }
      ∷ [];
  fwd_scale = plus_one;
  idle_floor = some (pos 50000);
  airmode = disabled;
}

-- A roll that is not a number.
abbrev broken : Wrench (Option ℤ)
broken = record {
  roll = none;
  pitch = some (pos 0);
  yaw = some (pos 0);
  thrust = some (pos 500000);
}

allocate_commands_example :
    IsAll (IsCommand fixed quad.idle_floor) (allocate fixed (record quad { airmode = rp }) broken)
    × (length (allocate fixed (record quad { airmode = rp }) broken) ≡ 2)
allocate_commands_example =
    allocate_commands fixed fixed-IsOrder (record quad { airmode = rp }) broken refl refl refl
