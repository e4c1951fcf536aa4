-- ===== src/PidConfig/Commands.antt =====
-- The command handlers of firmware/src/control/pid_config.c. A payload is the bytes behind the pointer,
-- or `none` for a null pointer; `read_f` is the float in four bytes, `trunc` the conversion to an int.
use vayu.Common.{
  ℕ, ◌+◌, ◌*◌, Bool, true, not, ◌&&◌, ◌||◌, Option, none, some, List, ltb, get_or, take, drop,
  if◌then◌else◌, ℤ, pos, negsuc, is_negative,
}
use vayu.State.{Status, ok, err_invalid}
use vayu.Maths.{Float}
use vayu.PidConfig.{
  PidGains, Detection, Store, Live, Tune, put, num_axes, ctrl_count, selector, save, apply_gains,
  apply_gyro_lpf, apply_d_lpf, notch_set_params, notch_get_params,
}

-- The guards on the length, which all byte payloads share.
abbrev pub framed : ℕ → Option (List ℕ) → ℕ → Option (List ℕ)
framed argc none len = none
framed argc (some p) len =
    if ltb len 3
    then none
    else if ltb (get_or p 2 0) argc
    then none
    else if ltb len (get_or p 2 0 * 4 + 3)
    then none
    else some p

abbrev pub sign : ℤ → ℤ
sign n = if is_negative n then negsuc 0 else pos 1

-- What follows the attempt to apply a value: nothing if it was refused, and else the store is written
-- and saved.
abbrev pub commit : {F : Type 0} → Option (Live F) → Store F → Tune F → Status × Tune F
unfolding save
commit none s t = (err_invalid, t)
commit (some l) s t = (ok, save (record t { live = l; store = s }))

module _ {F : Type 0} (fl : Float F) where
  abbrev pub finite_gains : PidGains F → Bool
  finite_gains g =
      fl.is_finite g.kp && (fl.is_finite g.ki && (fl.is_finite g.kd && fl.is_finite g.kff))

  -- The write to the store and to the controllers, once the selectors are in range.
  unfoldable pub set_slot : ℕ → ℕ → PidGains F → Tune F → Status × Tune F
  set_slot ctrl axis g t =
      if not (finite_gains g)
      then (err_invalid, t)
      else commit (apply_gains fl ctrl axis g t.live)
          (record t.store { gains = put t.store.gains ctrl (put (t.store.gains ctrl) axis g) }) t

  -- The constant of a filter must be finite and not negative.
  abbrev pub is_constant : F → Bool
  is_constant rc = fl.is_finite rc && not (fl.lt rc (fl.lit 0 0))

  unfoldable pub set_gyro_slot : ℕ → F → Tune F → Status × Tune F
  set_gyro_slot axis rc t =
      if not (is_constant rc)
      then (err_invalid, t)
      else commit (apply_gyro_lpf fl axis rc t.live)
          (record t.store {
            gyro_lpf = put t.store.gyro_lpf axis rc;
            gyro_lpf_valid = put t.store.gyro_lpf_valid axis true;
          })
          t

  unfoldable pub set_d_slot : ℕ → F → Tune F → Status × Tune F
  set_d_slot axis rc t =
      if not (is_constant rc)
      then (err_invalid, t)
      else commit (apply_d_lpf fl axis rc t.live)
          (record t.store {
            d_lpf = put t.store.d_lpf axis rc;
            d_lpf_valid = put t.store.d_lpf_valid axis true;
          })
          t

  -- `pid_config_apply_gyro_notch`.
  unfoldable pub apply_gyro_notch : Bool → Detection F → Tune F → Status × Tune F
  apply_gyro_notch enabled d t =
      if not (fl.is_finite d.q)
        || (not (fl.is_finite d.fmin_hz)
            || (not (fl.is_finite d.fmax_hz) || not (fl.is_finite d.min_ratio)))
      then (err_invalid, t)
      else let b = notch_set_params fl d t.live.bank in
        commit (some (record t.live { bank = b; notch_on = enabled }))
          (record t.store {
            notch = notch_get_params b d;
            notch_enabled = enabled;
            notch_valid = true;
          })
          t

  -- The end of the learn that the autoband of CMD_SET_GYRO_NOTCH starts, on the bounds that it computed:
  -- `autoband_step` sets the band of the live notch, and the store keeps what it had.
  unfoldable pub end_autoband : F → F → Tune F → Tune F
  end_autoband lo hi t =
      let d : Detection F = record {
        q = fl.lit 0 0;
        fmin_hz = lo;
        fmax_hz = hi;
        min_ratio = fl.lit 0 0;
      } in
      if fl.lt lo hi
      then record t { live = record t.live { bank = notch_set_params fl d t.live.bank } }
      else t

  abbrev pub all_finite : (ℕ → F) → Bool
  all_finite a =
      fl.is_finite (a 0) && (fl.is_finite (a 1) && (fl.is_finite (a 2) && fl.is_finite (a 3)))

  -- `pid_config_store_motor_geometry`, on pointers that are not null.
  unfoldable pub store_motor_geometry : (ℕ → F) → (ℕ → F) → (ℕ → ℤ) → Tune F → Status × Tune F
  store_motor_geometry x y spin t =
      if not (all_finite x && all_finite y)
      then (err_invalid, t)
      else commit (some t.live)
          (record t.store {
            motor_pos_x = x;
            motor_pos_y = y;
            motor_spin = λ i. sign (spin i);
            motor_geom_valid = true;
          })
          t

module _ {F : Type 0} (fl : Float F) (read_f : List ℕ → F) (trunc : F → ℤ) where
  -- `arg_f`.
  abbrev pub arg_f : List ℕ → ℕ → F
  arg_f p idx = read_f (take 4 (drop (3 + idx * 4) p))

  -- A selector that arrives as a float.
  abbrev pub rounded : List ℕ → ℕ → ℤ
  rounded p idx = trunc (fl.add (arg_f p idx) (fl.lit 5 1))

  abbrev pub gains_of : List ℕ → PidGains F
  gains_of p = record {
    kp = arg_f p 2;
    ki = arg_f p 3;
    kd = arg_f p 4;
    kff = arg_f p 5;
    valid = true;
  }

  -- `pid_config_apply_command`.
  unfoldable pub apply_command : Option (List ℕ) → ℕ → Tune F → Status × Tune F
  apply_command payload len t = elim (framed 6 payload len) [
    | none ↦ (err_invalid, t)
    | some p ↦ elim (selector (rounded p 0) ctrl_count) [
      | none ↦ (err_invalid, t)
      | some ctrl ↦ elim (selector (rounded p 1) num_axes) [
        | none ↦ (err_invalid, t)
        | some axis ↦ set_slot fl ctrl axis (gains_of p) t
      ]
    ]
  ]

  -- `pid_config_apply_gyro_lpf_command`.
  unfoldable pub apply_gyro_lpf_command : Option (List ℕ) → ℕ → Tune F → Status × Tune F
  apply_gyro_lpf_command payload len t = elim (framed 2 payload len) [
    | none ↦ (err_invalid, t)
    | some p ↦ elim (selector (rounded p 0) num_axes) [
      | none ↦ (err_invalid, t)
      | some axis ↦ set_gyro_slot fl axis (arg_f p 1) t
    ]
  ]

  -- `pid_config_apply_d_lpf_command`.
  unfoldable pub apply_d_lpf_command : Option (List ℕ) → ℕ → Tune F → Status × Tune F
  apply_d_lpf_command payload len t = elim (framed 2 payload len) [
    | none ↦ (err_invalid, t)
    | some p ↦ elim (selector (rounded p 0) num_axes) [
      | none ↦ (err_invalid, t)
      | some axis ↦ set_d_slot fl axis (arg_f p 1) t
    ]
  ]
