-- ===== src/Control/Mixer.antt =====
-- firmware/src/control/mixer.c and its header: the allocation of a wrench to the motors. The matrices
-- are lists, one row of `b_pinv` for each motor and one of `b` for each axis; `n` is the number of rows
-- of `b_pinv`. Geometry has how the matrices come from the motors' positions.
pub mod Limits
pub mod Geometry
mod Tests
use vayu.Common.{
  ℕ, zero, suc, Bool, true, false, ◌||◌, List, [], ◌∷◌, map, Option, none, some, if◌then◌else◌,
}
use vayu.Maths.{Float}

-- `mixer_airmode_t`.
pub data Airmode : Type 0 where
  disabled rp rpy : Airmode

-- A wrench, and the four rows and columns of the matrices.
pub record Wrench (F : Type 0) : Type 0 where
  pub roll : F
  pub pitch : F
  pub yaw : F
  pub thrust : F

-- `mixer_t`; a row of `b_pinv` is one motor's.
pub record Mixer (F : Type 0) : Type 0 where
  pub b : Wrench (List F)
  pub b_pinv : List (Wrench F)
  pub fwd_scale : F
  pub idle_floor : F
  pub airmode : Airmode

module _ {F : Type 0} (fl : Float F) where
  abbrev zero_f : F
  zero_f = fl.lit 0 0

  abbrev one_f : F
  one_f = fl.lit 1 0

  -- `mixer_set_airmode` and `mixer_set_idle_floor`.
  unfoldable pub set_airmode : Airmode → Mixer F → Mixer F
  set_airmode mode mx = record mx { airmode = mode }

  unfoldable pub set_idle_floor : F → Mixer F → Mixer F
  set_idle_floor idle mx = record mx { idle_floor = idle }

  -- One row of the nominal allocation.
  abbrev pub nominal : Wrench F → Wrench F → F
  nominal w row =
      fl.add
        (fl.add (fl.add (fl.add zero_f (fl.mul row.roll w.roll)) (fl.mul row.pitch w.pitch))
          (fl.mul row.yaw w.yaw))
        (fl.mul row.thrust w.thrust)

  -- The loop of `desat_gain`, with `k_min` and `k_max`.
  unfoldable pub desat_from : F → F → List F → List F → F → F → F
  desat_from k_min k_max [] dir mn mx = fl.add k_min k_max
  desat_from k_min k_max (m ∷ ms) [] mn mx = fl.add k_min k_max
  desat_from k_min k_max (m ∷ ms) (d ∷ ds) mn mx =
      let skip = fl.lt (fl.fabs d) (fl.lit 1 6) in
      let k = if fl.lt m mn then fl.div (fl.sub mn m) d else fl.div (fl.sub mx m) d in
      let moved = fl.lt m mn || fl.lt mx m in
      elim skip [
        | true ↦ desat_from k_min k_max ms ds mn mx
        | false ↦ elim moved [
          | false ↦ desat_from k_min k_max ms ds mn mx
          | true ↦
              desat_from (if fl.lt k k_min then k else k_min) (if fl.lt k_max k then k else k_max)
                ms ds mn mx
        ]
      ]

  -- `desat_gain`.
  unfoldable pub desat_gain : List F → List F → F → F → F
  desat_gain motor dir mn mx = desat_from zero_f zero_f motor dir mn mx

  -- The loops that find the least and the greatest command.
  unfoldable pub least : F → List F → F
  least mn [] = mn
  least mn (m ∷ ms) = least (if fl.lt m mn then m else mn) ms

  unfoldable pub greatest : F → List F → F
  greatest mx [] = mx
  greatest mx (m ∷ ms) = greatest (if fl.lt mx m then m else mx) ms

  -- The scale of the differential.
  unfoldable pub scale_of : F → F → F → F
  scale_of thr mn mx =
      let k = fl.div thr (fl.sub thr mn) in
      let s = if fl.lt mn zero_f then (if fl.lt k one_f then k else one_f) else one_f in
      let j = fl.div (fl.sub one_f thr) (fl.sub mx thr) in
      if fl.lt one_f mx then (if fl.lt j s then j else s) else s

  -- The scaling of the differential about the collective.
  unfoldable pub scale_all : F → List F → List F
  scale_all thr [] = []
  scale_all thr (m ∷ ms) =
      let s = scale_of thr (least m ms) (greatest m ms) in
      if fl.lt s one_f then map (λ v. fl.add thr (fl.mul s (fl.sub v thr))) (m ∷ ms) else m ∷ ms

  -- The loop `motor[i] += k * dir[i]`.
  unfoldable pub shift : F → List F → List F → List F
  shift k [] dir = []
  shift k (m ∷ ms) [] = m ∷ ms
  shift k (m ∷ ms) (d ∷ ds) = fl.add m (fl.mul k d) ∷ shift k ms ds

  -- The sequential desaturation; `yaw_too` in the mode MIXER_AIRMODE_RP.
  unfoldable pub desaturate : Bool → Mixer F → List F → List F
  desaturate yaw_too mx motor =
      let dthr = map (λ r. r.thrust) mx.b_pinv in
      let dyaw = map (λ r. r.yaw) mx.b_pinv in
      let moved = shift (desat_gain motor dthr mx.idle_floor one_f) motor dthr in
      if yaw_too then shift (desat_gain moved dyaw mx.idle_floor one_f) moved dyaw else moved

  -- The last pass on one command: the NaN guard, the idle floor and the ceiling.
  unfoldable pub guard : F → F → F → F
  guard lo hi m =
      let v = if fl.is_nan m then lo else m in
      let u = if fl.lt v lo then lo else v in if fl.lt hi u then hi else u

  -- The branch on the mode in `mixer_allocate`.
  unfoldable pub fit : Airmode → Mixer F → Wrench F → List F → List F
  fit disabled mx w motor = scale_all w.thrust motor
  fit rp mx w motor = desaturate true mx motor
  fit rpy mx w motor = desaturate false mx motor

  -- `mixer_allocate`, the motor commands.
  unfoldable pub allocate : Mixer F → Wrench F → List F
  allocate mx w = map (guard mx.idle_floor one_f) (fit mx.airmode mx w (map (nominal w) mx.b_pinv))

  -- The sum of one row of the realised wrench.
  unfoldable pub dot_from : F → List F → List F → F
  dot_from s [] ms = s
  dot_from s (x ∷ xs) [] = s
  dot_from s (x ∷ xs) (m ∷ ms) = dot_from (fl.add s (fl.mul x m)) xs ms

  -- The realised wrench of `mixer_allocate`.
  unfoldable pub realized : Mixer F → List F → Wrench F
  realized mx motor = record {
    roll = fl.mul (dot_from zero_f mx.b.roll motor) mx.fwd_scale;
    pitch = fl.mul (dot_from zero_f mx.b.pitch motor) mx.fwd_scale;
    yaw = fl.mul (dot_from zero_f mx.b.yaw motor) mx.fwd_scale;
    thrust = fl.mul (dot_from zero_f mx.b.thrust motor) mx.fwd_scale;
  }
