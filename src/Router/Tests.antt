-- ===== src/Router/Tests.antt =====
-- Commands in fixed point, for firmware/src/comm/navlink_router.c.
use vayu.Common.{
  ℕ, zero, suc, ◌*◌, ◌/◌, ◌%◌, ◌≤◌, ◌<◌, ◌≡◌, ◌⊎◌, refl, ap, false, ◌&&◌, Option, none, some, List,
  [], ◌∷◌, length, get_or, ℤ, pos, negsuc, ltb, if◌then◌else◌, arith,
}
use vayu.Maths.Fixed.{fixed, unit}
use vayu.State.{SysState, standby, prearm, armed}
use vayu.PidConfig.{PidGains}
use vayu.PidConfig.Tests
use vayu.PidConfig.Applied.{all_four_finite, retuned}
use vayu.Control.Sysid.Tests.{still}
use vayu.Router.{
  accepted, failed, Board, World, word, on_cmd_calibrate_imu, on_cmd_arm, on_cmd_set_pid,
}
use vayu.Router.Calibrate.{IsIeee, calibration_unknown}
use vayu.Router.SetPid.{IsExact, set_pid_applies}
use vayu.Router.ArmAnswer.{served, due, arm_answered_once}

-- The floats 0 to 15 of IEEE 754.
abbrev bits : ℕ → ℕ
bits n =
    get_or
      (0 ∷ 0x3F800000 ∷ 0x40000000 ∷ 0x40400000 ∷ 0x40800000 ∷ 0x40A00000 ∷ 0x40C00000 ∷ 0x40E00000
        ∷ 0x41000000 ∷ 0x41100000 ∷ 0x41200000 ∷ 0x41300000 ∷ 0x41400000 ∷ 0x41500000 ∷ 0x41600000
        ∷ 0x41700000 ∷ [])
      n 0

abbrev le_bytes : ℕ → List ℕ
le_bytes v = v % 256 ∷ v / 256 % 256 ∷ v / 65536 % 256 ∷ v / 16777216 % 256 ∷ []

abbrev ieee_bytes : Option ℤ → List ℕ
ieee_bytes none = le_bytes 0x7FC00000
ieee_bytes (some (pos v)) = le_bytes v
ieee_bytes (some (negsuc v)) = le_bytes v

-- A driver that keeps the selectors it gets; a float is the number of its bytes.
abbrev ieee : Board (Option ℤ) (List (ℕ × ℕ))
ieee = record {
  calibrate_start = some (λ imu typ seen. (imu, typ) ∷ seen);
  calibrating = none;
  calibrate_cancel = none;
  write_f = ieee_bytes;
  read_f = λ p. some (pos (word p 0));
  trunc = λ v. pos 0;
  as_float = λ n. some (pos (bits n));
}

ieee_four : (x : Option ℤ) → length (ieee_bytes x) ≡ 4
ieee_four none = refl
ieee_four (some (pos v)) = refl
ieee_four (some (negsuc v)) = refl

ieee_one_up : (n : ℕ) → 1 ≤ n → n ≤ 15 → 0x3F800000 ≤ word (le_bytes (bits n)) 0
ieee_one_up zero a b = absurd (omega (arith, a))
ieee_one_up (suc zero) a b = omega arith
ieee_one_up (suc (suc zero)) a b = omega arith
ieee_one_up (suc (suc (suc zero))) a b = omega arith
ieee_one_up (suc (suc (suc (suc zero)))) a b = omega arith
ieee_one_up (suc (suc (suc (suc (suc zero))))) a b = omega arith
ieee_one_up (suc (suc (suc (suc (suc (suc zero)))))) a b = omega arith
ieee_one_up (suc (suc (suc (suc (suc (suc (suc zero))))))) a b = omega arith
ieee_one_up (suc (suc (suc (suc (suc (suc (suc (suc zero)))))))) a b = omega arith
ieee_one_up (suc (suc (suc (suc (suc (suc (suc (suc (suc zero))))))))) a b = omega arith
ieee_one_up (suc (suc (suc (suc (suc (suc (suc (suc (suc (suc zero)))))))))) a b = omega arith
ieee_one_up (suc (suc (suc (suc (suc (suc (suc (suc (suc (suc (suc zero))))))))))) a b = omega arith
ieee_one_up (suc (suc (suc (suc (suc (suc (suc (suc (suc (suc (suc (suc zero)))))))))))) a b =
    omega arith
ieee_one_up (suc (suc (suc (suc (suc (suc (suc (suc (suc (suc (suc (suc (suc zero))))))))))))) a b =
    omega arith
ieee_one_up (suc (suc (suc (suc (suc (suc (suc (suc (suc (suc (suc (suc (suc (suc zero))))))))))))))
      a b =
    omega arith
ieee_one_up
      (suc (suc (suc (suc (suc (suc (suc (suc (suc (suc (suc (suc (suc (suc (suc zero)))))))))))))))
      a b =
    omega arith
ieee_one_up
      (suc
        (suc (suc (suc (suc (suc (suc (suc (suc (suc (suc (suc (suc (suc (suc (suc n))))))))))))))))
      a b =
    absurd (omega (arith, b))

ieee-IsIeee : IsIeee ieee
ieee-IsIeee = record { four = ieee_four; zero_bits = refl; one_up = ieee_one_up }

abbrev waiting : {W : Type 0} → W → World (Option ℤ) W
waiting r = record {
  sys = standby;
  sw_arm_request = false;
  tune = record { store = Tests.blank; live = Tests.board; saved = none };
  sysid = still;
  arm_ack = record { pending = false; req_seq = 0; deadline = 0 };
  rest = r;
}

-- The accelerometer with a full calibration.
calibration_unknown_example :
    (imu typ : ℕ) × (on_cmd_calibrate_imu fixed ieee 0x11 (waiting [])
      ≡ (some accepted, record (waiting []) { rest = (imu, typ) ∷ [] }))
    × ((imu ≡ 0) ⊎ (4 < imu))
calibration_unknown_example =
    calibration_unknown fixed ieee 0x11 (λ imu typ seen. (imu, typ) ∷ seen) (waiting []) ieee-IsIeee
      refl refl (λ e. absurd (omega (arith, e)))

-- A float as a tag and its size.
abbrev tagged : Option ℤ → List ℕ
tagged none = 0 ∷ 0 ∷ 0 ∷ 0 ∷ []
tagged (some (pos v)) = 1 ∷ v ∷ 0 ∷ 0 ∷ []
tagged (some (negsuc v)) = 2 ∷ v ∷ 0 ∷ 0 ∷ []

abbrev untagged : List ℕ → Option ℤ
untagged (suc zero ∷ v ∷ p) = some (pos v)
untagged (suc (suc n) ∷ v ∷ p) = some (negsuc v)
untagged p = none

abbrev whole_part : Option ℤ → ℤ
whole_part none = pos 0
whole_part (some (pos v)) = pos (v / unit)
whole_part (some (negsuc v)) = negsuc (v / unit)

abbrev exact : Board (Option ℤ) (List (ℕ × ℕ))
exact = record {
  calibrate_start = none;
  calibrating = none;
  calibrate_cancel = none;
  write_f = tagged;
  read_f = untagged;
  trunc = whole_part;
  as_float = λ n. some (pos (n * unit));
}

tagged_four : (x : Option ℤ) → length (tagged x) ≡ 4
tagged_four none = refl
tagged_four (some (pos v)) = refl
tagged_four (some (negsuc v)) = refl

tagged_back : (x : Option ℤ) → untagged (tagged x) ≡ x
tagged_back none = refl
tagged_back (some (pos v)) = refl
tagged_back (some (negsuc v)) = refl

exact-IsExact : IsExact fixed exact
exact-IsExact = record {
  four = tagged_four;
  back = tagged_back;
  small = λ n h. ap pos (omega arith);
}

abbrev pitch_gains : PidGains (Option ℤ)
pitch_gains = record {
  kp = some (pos 4500000);
  ki = some (pos 20000);
  kd = some (pos 1000);
  kff = some (pos 0);
  valid = false;
}

set_pid_applies_example : on_cmd_set_pid fixed exact 1 1 pitch_gains (waiting []) ≡ (
    if (ltb 1 2 && ltb 1 3) && all_four_finite fixed pitch_gains
    then (
      some accepted,
      record (waiting []) {
        tune = retuned fixed 1 1 pitch_gains (waiting {W = List (ℕ × ℕ)} []).tune;
      },
    )
    else (some failed, waiting []))
set_pid_applies_example =
    set_pid_applies fixed exact 1 1 pitch_gains (waiting []) exact-IsExact (omega arith)
      (omega arith)

-- The clock wraps between the command and the turn that finds ARMED.
abbrev turns : List (ℕ × SysState)
turns = (4, standby) ∷ (8, prearm) ∷ (12, armed) ∷ (900, armed) ∷ []

arm_answered_once_example :
    served 4294967290 turns (on_cmd_arm fixed exact 4294967290 7 (waiting [])).1 ≡ due 7 turns
arm_answered_once_example = arm_answered_once fixed exact 4294967290 7 turns (waiting []) refl

one_answer : due 7 turns ≡ (7, accepted) ∷ []
one_answer = refl
