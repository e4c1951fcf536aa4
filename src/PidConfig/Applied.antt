-- ===== src/PidConfig/Applied.antt =====
-- What a tune and a geometry leave, written out, for firmware/src/control/pid_config.c.
use vayu.Common.{
  ℕ, ◌≡◌, Bool, true, ◌&&◌, some, ltb, ◌==◌, Bool-cases, inl, inr, if◌then◌else◌, ℤ, pos, negsuc,
  is_negative,
}
use vayu.State.{ok, err_invalid}
use vayu.Maths.{Float}
use vayu.Control.Pid.{Pid, set_gains}
use vayu.PidConfig.{PidGains, Store, Live, Tune, apply_gains, save}
use vayu.PidConfig.Commands.{set_slot, commit, store_motor_geometry, all_finite}

module _ {F : Type 0} (fl : Float F) where
  -- None of the four gains is infinite or no number.
  abbrev pub all_four_finite : PidGains F → Bool
  all_four_finite g =
      fl.is_finite g.kp && (fl.is_finite g.ki && (fl.is_finite g.kd && fl.is_finite g.kff))

  -- A controller with the gains, and nothing else changed.
  abbrev pub regained : PidGains F → Pid F → Pid F
  regained g p = record p { kp = g.kp; ki = g.ki; kd = g.kd; kff = g.kff }

  -- The store with the gains in their slot, and its magic number.
  abbrev pub restored : ℕ → ℕ → PidGains F → Store F → Store F
  restored ctrl axis g s = record s {
    magic = 0x50494435;
    gains = λ c.
        if ctrl == c
        then (λ i. if axis == i then record g { valid = true } else s.gains ctrl i)
        else s.gains c;
  }

  -- The live controllers with the gains: the rate loop's (1) or the angle loop's (0), on one axis.
  abbrev pub relived : ℕ → ℕ → PidGains F → Live F → Live F
  relived ctrl axis g l =
      if ctrl == 1
      then record l { rate = λ i. if axis == i then regained g (l.rate axis) else l.rate i }
      else record l { angle = λ i. if axis == i then regained g (l.angle axis) else l.angle i }

  -- The tune after gains that were taken: live, in the store, and handed out to be saved.
  abbrev pub retuned : ℕ → ℕ → PidGains F → Tune F → Tune F
  retuned ctrl axis g t = record {
    store = restored ctrl axis g t.store;
    live = relived ctrl axis g t.live;
    saved = some (restored ctrl axis g t.store);
  }

  pub set_slot-retuned :
      (ctrl axis : ℕ) (g : PidGains F) (t : Tune F)
      → ltb axis 3 ≡ true
      → set_slot fl ctrl axis (record g { valid = true }) t
        ≡ (if all_four_finite g then (ok, retuned ctrl axis g t) else (err_invalid, t))
  unfolding set_slot apply_gains set_gains save
  set_slot-retuned ctrl axis g t a = elim (Bool-cases (all_four_finite g)) [
    | inr f ↦ simp (set_slot, f)
    | inl f ↦ elim (Bool-cases (ctrl == 1)) [
      | inl c ↦ simp (set_slot, apply_gains, commit, f, a, c)
      | inr c ↦ simp (set_slot, apply_gains, commit, f, a, c)
    ]
  ]

  pub store_motor_geometry-stored :
      (x y : ℕ → F) (spin : ℕ → ℤ) (t : Tune F)
      → all_finite fl x ≡ true
      → all_finite fl y ≡ true
      → (store_motor_geometry fl x y spin t).1.saved
        ≡ some (record t.store {
          magic = 0x50494435;
          motor_pos_x = x;
          motor_pos_y = y;
          motor_spin = λ i. if is_negative (spin i) then negsuc 0 else pos 1;
          motor_geom_valid = true;
        })
  unfolding store_motor_geometry save
  store_motor_geometry-stored x y spin t a b = simp (store_motor_geometry, commit, a, b)
