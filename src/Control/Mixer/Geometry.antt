-- ===== src/Control/Mixer/Geometry.antt =====
-- The geometry of the motors: mixer_set_geometry of firmware/src/control/mixer.c, and the signs and the
-- command of firmware/src/control/angle_rate_controller.c. An array of four is a function from motors in
-- the command and a list in the mixer. The mixer has as many motors as its pseudo-inverse has rows.
pub mod Singular
mod Tests
use vayu.Common.{
  ℕ, ◌+◌, ◌*◌, Bool, true, false, ◌||◌, List, [], ◌∷◌, map, length, Option, none, some, ltb, ◌==◌,
  take, drop, get_or, if◌then◌else◌, ℤ, pos, negsuc, is_negative, not,
}
use vayu.Maths.{Float}
use vayu.Maths.Inverse.{mat4_inv, entry}
use vayu.PidConfig.{Tune}
use vayu.PidConfig.Commands.{store_motor_geometry}
use vayu.Control.Mixer.{Wrench, Mixer, Airmode, disabled, set_airmode, set_idle_floor}

-- `s_mixer`, `s_mix_roll`, `s_mix_pitch`, `s_mix_yaw` and `s_airmode`.
pub record Layout (F : Type 0) : Type 0 where
  pub mixer : Mixer F
  pub mix_roll : List F
  pub mix_pitch : List F
  pub mix_yaw : List F
  pub airmode : Airmode

abbrev pub max_motors : ℕ
max_motors = 8

module _ {F : Type 0} (fl : Float F) where
  abbrev zero_g : F
  zero_g = fl.lit 0 0

  abbrev one : F
  one = fl.lit 1 0

  -- The four rows of the effectiveness matrix.
  abbrev pub roll_sign : F → F
  roll_sign y = if fl.le zero_g y then fl.neg one else one

  abbrev pub pitch_sign : F → F
  pitch_sign x = if fl.le zero_g x then one else fl.neg one

  abbrev pub yaw_sign : ℤ → F
  yaw_sign s = if is_negative s then fl.neg one else one

  abbrev pub effectiveness : List F → List F → List ℤ → Wrench (List F)
  effectiveness xs ys spins = record {
    roll = map roll_sign ys;
    pitch = map pitch_sign xs;
    yaw = map yaw_sign spins;
    thrust = map (λ s. one) spins;
  }

  -- A sum of products, from `s`.
  abbrev dot : F → List F → List F → F
  dot s [] bs = s
  dot s (a ∷ as_) [] = s
  dot s (a ∷ as_) (b ∷ bs) = dot (fl.add s (fl.mul a b)) as_ bs

  abbrev rows : Wrench (List F) → List (List F)
  rows b = b.roll ∷ b.pitch ∷ b.yaw ∷ b.thrust ∷ []

  -- G = B B^T.
  abbrev pub gram : Wrench (List F) → List (List F)
  gram b = map (λ row. map (dot zero_g row) (rows b)) (rows b)

  -- An entry of the motor's row of B^T Ginv.
  abbrev weighed : List (List F) → Wrench F → ℕ → F
  weighed g c a =
      fl.add
        (fl.add
          (fl.add (fl.add zero_g (fl.mul c.roll (entry fl g 0 a)))
            (fl.mul c.pitch (entry fl g 1 a)))
          (fl.mul c.yaw (entry fl g 2 a)))
        (fl.mul c.thrust (entry fl g 3 a))

  abbrev pinv_row : List (List F) → Wrench F → Wrench F
  pinv_row g c = record {
    roll = weighed g c 0;
    pitch = weighed g c 1;
    yaw = weighed g c 2;
    thrust = weighed g c 3;
  }

  -- The columns of the effectiveness matrix, one for each motor.
  abbrev columns : List F → List F → List ℤ → List (Wrench F)
  columns [] ys spins = []
  columns (x ∷ xs) [] spins = []
  columns (x ∷ xs) (y ∷ ys) [] = []
  columns (x ∷ xs) (y ∷ ys) (s ∷ spins) =
      record { roll = roll_sign y; pitch = pitch_sign x; yaw = yaw_sign s; thrust = one }
      ∷ columns xs ys spins

  abbrev thrust_sum : F → List (Wrench F) → F
  thrust_sum s [] = s
  thrust_sum s (r ∷ rows) = thrust_sum (fl.add s r.thrust) rows

  abbrev scaled : F → Wrench F → Wrench F
  scaled g r = record {
    roll = fl.mul r.roll g;
    pitch = fl.mul r.pitch g;
    yaw = fl.mul r.yaw g;
    thrust = fl.mul r.thrust g;
  }

  -- `mixer_set_geometry`, on as many motors as there are positions.
  unfoldable pub set_geometry : List F → List F → List ℤ → Mixer F → Bool × Mixer F
  set_geometry xs ys spins mx =
      let b = effectiveness xs ys spins in
      let mx_b = record mx { b = b; idle_floor = zero_g; airmode = disabled } in
      if length xs == 0 || ltb max_motors (length xs)
      then (false, mx)
      else elim (mat4_inv fl (gram b)) [
        | none ↦ (false, mx_b)
        | some g ↦
            let pinv = map (pinv_row g) (columns xs ys spins) in
            let thr_sum = thrust_sum zero_g pinv in
            if fl.lt (fl.fabs thr_sum) (fl.lit 1 9)
            then (false, record mx_b { b_pinv = pinv })
            else let k = fl.div (fl.lit (length xs) 0) thr_sum in
              (true, record mx_b { b_pinv = map (scaled k) pinv; fwd_scale = fl.div one k })
      ]

  -- The spin of a sign.
  abbrev pub spin_of : F → ℤ
  spin_of a = if fl.le zero_g a then pos 1 else negsuc 0

  -- `mixer_sync`.
  abbrev mixer_sync : Layout F → Layout F
  mixer_sync l =
      let mx =
        (set_geometry l.mix_pitch (map fl.neg l.mix_roll) (map spin_of l.mix_yaw) l.mixer).1 in
      record l { mixer = set_idle_floor fl (fl.lit 15 2) (set_airmode fl l.airmode mx) }

  -- `angle_rate_controller_set_motor_geometry`.
  unfoldable pub set_motor_geometry : List F → List F → List ℤ → Layout F → Layout F
  set_motor_geometry xs ys spins l = mixer_sync (record l {
    mix_roll = map roll_sign ys;
    mix_pitch = map pitch_sign xs;
    mix_yaw = map yaw_sign spins;
  })

abbrev pub four : {A : Type 0} → (ℕ → A) → List A
four f = f 0 ∷ f 1 ∷ f 2 ∷ f 3 ∷ []

module _ {F : Type 0} (fl : Float F) (read_f : List ℕ → F) where
  abbrev pub arg : List ℕ → ℕ → F
  arg p i = read_f (take 4 (drop (3 + i * 4) p))

  -- `angle_rate_controller_apply_geometry_command`, on a payload that is not null.
  unfoldable pub apply_geometry_command :
      List ℕ → ℕ → Layout F → Tune F → Bool × (Layout F × Tune F)
  apply_geometry_command p len l t =
      let x : ℕ → F = λ i. arg p i in
      let y : ℕ → F = λ i. arg p (4 + i) in
      let spin : ℕ → ℤ = λ i. spin_of fl (arg p (8 + i)) in
      if ltb len 3
      then (false, (l, t))
      else if ltb (get_or p 2 0) 12 || ltb len (get_or p 2 0 * 4 + 3)
      then (false, (l, t))
      else (
        true,
        (
          set_motor_geometry fl (four x) (four y) (four spin) l,
          (store_motor_geometry fl x y spin t).1,
        ),
      )
