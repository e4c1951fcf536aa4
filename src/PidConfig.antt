-- ===== src/PidConfig.antt =====
-- firmware/src/control/pid_config.c: the tune that the ground sets, its store and its file; with the
-- setters of firmware/src/control/angle_rate_controller.c and angle_controller.c that apply it, their
-- restore at boot, and the parameters of firmware/src/dsp/gyro_notch.c. Reading a float from four bytes
-- and the conversion to an int are parameters. An array is a function from indices.
pub mod Commands
pub mod Applied
pub mod Follows
pub mod Restored
pub mod Obeyed
pub mod Reboot
pub mod Tests
use vayu.Common.{
  ℕ, ◌+◌, ◌*◌, Bool, true, false, not, ◌&&◌, ◌||◌, Option, none, some, List, [], ◌∷◌, ltb, ◌==◌,
  get_or, take, drop, if◌then◌else◌, ℤ, pos, negsuc, is_negative,
}
use vayu.State.{Status, ok, err_invalid}
use vayu.Maths.{Float}
use vayu.Control.Pid.{Pid, init, set_gains, set_d_lpf_rc}

-- A write to an array.
abbrev pub put : {A : Type 0} → (ℕ → A) → ℕ → A → ℕ → A
put a i v j = if i == j then v else a j

-- `pid_gains_t`.
pub record PidGains (F : Type 0) : Type 0 where
  pub kp : F
  pub ki : F
  pub kd : F
  pub kff : F
  pub valid : Bool

-- The four detection parameters of the notch.
pub record Detection (F : Type 0) : Type 0 where
  pub q : F
  pub fmin_hz : F
  pub fmax_hz : F
  pub min_ratio : F

-- `pid_store_t`; `gains` by controller and axis.
pub record Store (F : Type 0) : Type 0 where
  pub magic : ℕ
  pub gains : ℕ → ℕ → PidGains F
  pub gyro_lpf : ℕ → F
  pub gyro_lpf_valid : ℕ → Bool
  pub d_lpf : ℕ → F
  pub d_lpf_valid : ℕ → Bool
  pub notch : Detection F
  pub notch_enabled : Bool
  pub notch_valid : Bool
  pub motor_pos_x : ℕ → F
  pub motor_pos_y : ℕ → F
  pub motor_spin : ℕ → ℤ
  pub motor_geom_valid : Bool

-- The live controllers: the PIDs and filter constants of the two loops, and the notch, whose banks
-- are allocated or not and have the same parameters on every axis.
pub record Live (F : Type 0) : Type 0 where
  pub rate : ℕ → Pid F
  pub angle : ℕ → Pid F
  pub gyro_rc : ℕ → F
  pub bank : Option (Detection F)
  pub notch_on : Bool

-- The store, the controllers, and the last snapshot that was handed to the file-system owner.
pub record Tune (F : Type 0) : Type 0 where
  pub store : Store F
  pub live : Live F
  pub saved : Option (Store F)

abbrev pub num_axes : ℕ
num_axes = 3

abbrev pub ctrl_angle : ℕ
ctrl_angle = 0

abbrev pub ctrl_rate : ℕ
ctrl_rate = 1

abbrev pub ctrl_count : ℕ
ctrl_count = 2

abbrev pub config_magic : ℕ
config_magic = 0x50494435

-- `sizeof (pid_store_t)`.
abbrev pub store_size : ℕ
store_size = 216

module _ {F : Type 0} where
  -- `pid_config_init`, on what the card answers: no file, or the count that is read and the bytes as a
  -- store.
  unfoldable pub config_init : Option (ℕ × Store F) → Store F → Store F
  config_init none s = s
  config_init (some (n, tmp)) s = if n == store_size && tmp.magic == config_magic then tmp else s

  -- `get_slot`.
  unfoldable pub get_slot : ℕ → ℕ → Store F → Option (PidGains F)
  get_slot ctrl axis s =
      if not (ltb ctrl ctrl_count) || not (ltb axis num_axes)
      then none
      else if not (s.gains ctrl axis).valid
      then none
      else some (s.gains ctrl axis)

  -- `pid_config_get_gyro_lpf` and `pid_config_get_d_lpf`.
  unfoldable pub get_gyro_lpf : ℕ → Store F → Option F
  get_gyro_lpf axis s =
      if not (ltb axis num_axes) || not (s.gyro_lpf_valid axis)
      then none
      else some (s.gyro_lpf axis)

  unfoldable pub get_d_lpf : ℕ → Store F → Option F
  get_d_lpf axis s =
      if not (ltb axis num_axes) || not (s.d_lpf_valid axis) then none else some (s.d_lpf axis)

  -- `pid_config_get_gyro_notch`.
  unfoldable pub get_gyro_notch : Store F → Option (Detection F × Bool)
  get_gyro_notch s = if not s.notch_valid then none else some (s.notch, s.notch_enabled)

  -- `pid_config_save`.
  unfoldable pub save : Tune F → Tune F
  save t = let s = record t.store { magic = config_magic } in record t { store = s; saved = some s }

-- `gyro_notch_get_params`, over the caller's values.
unfoldable pub notch_get_params : {F : Type 0} → Option (Detection F) → Detection F → Detection F
notch_get_params none seed = seed
notch_get_params (some b) seed = b

-- An integer selector below `n`.
abbrev pub selector : ℤ → ℕ → Option ℕ
selector (negsuc k) n = none
selector (pos k) n = if ltb k n then some k else none

module _ {F : Type 0} (fl : Float F) where
  abbrev pub or_zero : F → F
  or_zero rc = if fl.lt (fl.lit 0 0) rc then rc else fl.lit 0 0

  -- `angle_rate_controller_set_gains` and `angle_controller_set_gains`.
  unfoldable pub apply_gains : ℕ → ℕ → PidGains F → Live F → Option (Live F)
  apply_gains ctrl axis g l =
      if not (ltb axis num_axes)
      then none
      else if ctrl == ctrl_rate
      then some
          (record l { rate = put l.rate axis (set_gains fl g.kp g.ki g.kd g.kff (l.rate axis)) })
      else some
          (record l { angle = put l.angle axis (set_gains fl g.kp g.ki g.kd g.kff (l.angle axis)) })

  -- `angle_rate_controller_set_gyro_lpf`.
  unfoldable pub apply_gyro_lpf : ℕ → F → Live F → Option (Live F)
  apply_gyro_lpf axis rc l =
      if not (ltb axis num_axes)
      then none
      else some (record l { gyro_rc = put l.gyro_rc axis (or_zero rc) })

  -- `angle_rate_controller_set_d_lpf`.
  unfoldable pub apply_d_lpf : ℕ → F → Live F → Option (Live F)
  apply_d_lpf axis rc l =
      if not (ltb axis num_axes)
      then none
      else some (record l { rate = put l.rate axis (set_d_lpf_rc fl rc (l.rate axis)) })

  -- `notch_bank_set_detection`: a value that is not positive leaves its parameter.
  unfoldable pub set_detection : Detection F → Detection F → Detection F
  set_detection new b = record {
    q = if fl.lt (fl.lit 0 0) new.q then new.q else b.q;
    fmin_hz = if fl.lt (fl.lit 0 0) new.fmin_hz then new.fmin_hz else b.fmin_hz;
    fmax_hz = if fl.lt (fl.lit 0 0) new.fmax_hz then new.fmax_hz else b.fmax_hz;
    min_ratio = if fl.lt (fl.lit 0 0) new.min_ratio then new.min_ratio else b.min_ratio;
  }

  -- `gyro_notch_set_params`, which does nothing without banks.
  unfoldable pub notch_set_params : Detection F → Option (Detection F) → Option (Detection F)
  unfolding set_detection
  notch_set_params new none = none
  notch_set_params new (some b) = some (set_detection new b)

  -- What is stored, on a controller.
  abbrev pub with_gains : Option (PidGains F) → Pid F → Pid F
  with_gains none p = p
  with_gains (some g) p = set_gains fl g.kp g.ki g.kd g.kff p

  abbrev pub with_d_lpf : Option F → Pid F → Pid F
  with_d_lpf none p = p
  with_d_lpf (some rc) p = set_d_lpf_rc fl rc p

  -- The compiled controller, through `v_pid_init`.
  abbrev pub compiled : Pid F → Pid F
  compiled p = init fl p.kp p.ki p.kd p.kff p.i_max p.d_max p.d_lpf_rc p.out_min p.out_max

  -- One axis of `angle_rate_controller_init`.
  unfoldable pub rate_axis : Store F → ℕ → Pid F → Pid F
  rate_axis s i p = with_d_lpf (get_d_lpf i s) (with_gains (get_slot ctrl_rate i s) (compiled p))

  -- One axis of `angle_controller_init`.
  unfoldable pub angle_axis : Store F → ℕ → Pid F → Pid F
  angle_axis s i p = with_gains (get_slot ctrl_angle i s) (compiled p)

  -- The gyro filter of one axis at boot.
  unfoldable pub gyro_axis : Store F → ℕ → F → F
  gyro_axis s i rc₀ = elim (get_gyro_lpf i s) [ none ↦ rc₀ | some rc ↦ or_zero rc ]

  -- The notch at boot, after `gyro_notch_init` has allocated it or not; it starts disabled.
  unfoldable pub notch_at_boot : Store F → Option (Detection F) → Option (Detection F) × Bool
  notch_at_boot s b = elim (get_gyro_notch s) [
    | none ↦ (b, false)
    | some (d, on) ↦ (notch_set_params d b, on)
  ]

  -- The two inits, on the compiled controllers.
  unfoldable pub restore : Store F → Live F → Live F
  restore s l = record {
    rate = λ i. rate_axis s i (l.rate i);
    angle = λ i. angle_axis s i (l.angle i);
    gyro_rc = λ i. gyro_axis s i (l.gyro_rc i);
    bank = (notch_at_boot s l.bank).0;
    notch_on = (notch_at_boot s l.bank).1;
  }
