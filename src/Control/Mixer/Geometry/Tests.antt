-- ===== src/Control/Mixer/Geometry/Tests.antt =====
-- An X and a row of motors in fixed point, for firmware/src/control/mixer.c.
use vayu.Common.{
  ◌+◌, take, drop, Bool-cases, inl, inr, ℕ, ◌+◌, ◌-◌, ◌*◌, ◌≡◌, refl, true, Option, none, some,
  List, [], ◌∷◌, get_or, ℤ, pos, negsuc, arith, if◌then◌else◌, ◌==◌,
}
use vayu.Maths.Fixed.{fixed, unit}
use vayu.Maths.Inverse.{mat4_inv}
use vayu.PidConfig.{Tune}
use vayu.PidConfig.Tests
use vayu.Control.Mixer.{Wrench, rp}
use vayu.Control.Mixer.Geometry.{Layout, gram, set_geometry, apply_geometry_command}
use vayu.Control.Mixer.Geometry.Singular.{IsSigned, IsStale, told_by, placed, singular_accepted}

-- A float is a byte for the sign and one for the whole number.
abbrev signed_f : List ℕ → Option ℤ
signed_f bs =
    if get_or bs 0 0 == 0
    then some (pos (get_or bs 1 0 * unit))
    else some (negsuc (get_or bs 1 0 * unit - 1))

abbrev plus : Option ℤ
plus = some (pos 1000000)

abbrev minus : Option ℤ
minus = some (negsuc 999999)

abbrev level : Wrench (Option ℤ)
level = record { roll = plus; pitch = plus; yaw = plus; thrust = plus }

abbrev flying : Layout (Option ℤ)
flying = record {
  mixer = record {
    b = record { roll = []; pitch = []; yaw = []; thrust = [] };
    b_pinv = level ∷ level ∷ level ∷ level ∷ [];
    fwd_scale = plus;
    idle_floor = plus;
    airmode = rp;
  };
  mix_roll = minus ∷ minus ∷ plus ∷ plus ∷ [];
  mix_pitch = plus ∷ minus ∷ minus ∷ plus ∷ [];
  mix_yaw = minus ∷ plus ∷ minus ∷ plus ∷ [];
  airmode = rp;
}

x_is_taken :
    (set_geometry fixed
      (plus ∷ minus ∷ minus ∷ plus ∷ [])
      (plus ∷ plus ∷ minus ∷ minus ∷ [])
      (negsuc 0 ∷ pos 1 ∷ negsuc 0 ∷ pos 1 ∷ [])
      flying.mixer).0
    ≡ true
unfolding set_geometry mat4_inv
x_is_taken = refl

-- All motors in front of the centre.
abbrev in_front : List ℕ
in_front =
    12 ∷ 0 ∷ 12 ∷ 0 ∷ 1 ∷ 0 ∷ 0 ∷ 0 ∷ 1 ∷ 0 ∷ 0 ∷ 0 ∷ 1 ∷ 0 ∷ 0 ∷ 0 ∷ 1 ∷ 0 ∷ 0 ∷ 0 ∷ 1 ∷ 0 ∷ 0 ∷ 1
    ∷ 1 ∷ 0 ∷ 0 ∷ 0 ∷ 1 ∷ 0 ∷ 0 ∷ 1 ∷ 1 ∷ 0 ∷ 0 ∷ 0 ∷ 1 ∷ 0 ∷ 0 ∷ 0 ∷ 1 ∷ 0 ∷ 0 ∷ 1 ∷ 1 ∷ 0 ∷ 0 ∷ 1
    ∷ 1 ∷ 0 ∷ 0 ∷ []

abbrev tune : Tune (Option ℤ)
tune = record { store = Tests.blank; live = Tests.board; saved = none }

fixed-IsSigned : IsSigned fixed
fixed-IsSigned = record { one_up = refl; minus_down = refl; minus_minus = refl }

no_inverse : mat4_inv fixed (gram fixed (told_by fixed signed_f in_front)) ≡ none
unfolding mat4_inv
no_inverse = refl

finite_lem : (a : List ℕ) → fixed.is_finite (signed_f a) ≡ true
finite_lem a = elim (Bool-cases (get_or a 0 0 == 0)) [ inl h ↦ simp h | inr h ↦ simp h ]

singular_accepted_example :
    let r = apply_geometry_command fixed signed_f in_front 51 flying tune in
    (r.0 ≡ true)
    × IsStale fixed (told_by fixed signed_f in_front) flying.mixer r.1.0.mixer
    × (r.1.1.saved ≡ some (placed fixed signed_f in_front tune.store))
singular_accepted_example =
    singular_accepted fixed signed_f in_front 51 flying tune fixed-IsSigned (omega arith)
      (omega arith) (λ i h. finite_lem (take 4 (drop (3 + i * 4) in_front))) no_inverse
