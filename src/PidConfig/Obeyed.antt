-- ===== src/PidConfig/Obeyed.antt =====
-- Every command of firmware/src/control/pid_config.c keeps the store, the controllers and the snapshot
-- in step.
use vayu.Common.{
  ℕ, ◌<◌, ◌≡◌, ◌⊎◌, refl, Bool, true, false, not, ◌&&◌, ◌||◌, Option, none, some, List, ltb, ◌==◌,
  arith, Bool-cases, Option-cases, ==_iff, inl, inr, ℤ, pos, negsuc,
}
use vayu.State.{Status, ok}
use vayu.Maths.{Float}
use vayu.Control.Pid.{set_gains}
use vayu.PidConfig.{
  PidGains, Detection, Store, Live, Tune, put, config_magic, save, apply_gains, apply_gyro_lpf,
  apply_d_lpf, selector,
}
use vayu.PidConfig.Commands.{
  commit, set_slot, apply_command, set_gyro_slot, apply_gyro_lpf_command, set_d_slot,
  apply_d_lpf_command, apply_gyro_notch, store_motor_geometry, end_autoband, framed, rounded,
  gains_of, finite_gains, is_constant, all_finite,
}
use vayu.PidConfig.Follows.{
  Follows, rate_gains-Follows, angle_gains-Follows, gyro-Follows, d_lpf-Follows, notch-Follows,
}

-- The commands of the ground, and the end of a learn that CMD_SET_GYRO_NOTCH's autoband started.
pub data Command (F : Type 0) : Type 0 where
  pid_command : Option (List ℕ) → ℕ → Command F
  gyro_lpf_command : Option (List ℕ) → ℕ → Command F
  d_lpf_command : Option (List ℕ) → ℕ → Command F
  notch_command : Bool → Detection F → Command F
  geometry_command : (ℕ → F) → (ℕ → F) → (ℕ → ℤ) → Command F
  learned_band : F → F → Command F

-- Whether a command stores what it sets: all do but the end of a learn.
abbrev pub is_stored : {F : Type 0} → Command F → Bool
is_stored (pid_command p n) = true
is_stored (gyro_lpf_command p n) = true
is_stored (d_lpf_command p n) = true
is_stored (notch_command on d) = true
is_stored (geometry_command x y spin) = true
is_stored (learned_band lo hi) = false

selector_lt : (z : ℤ) (n k : ℕ) → selector z n ≡ some k → k < n
selector_lt (pos m) n k h = ground (arith, h)
selector_lt (negsuc m) n k h = cc

-- The controllers follow the store, and the last snapshot is the store, unless none was taken since
-- the store was `s₀`.
pub record Sound {F : Type 0} (fl : Float F) (s₀ : Store F) (d : Live F) (t : Tune F) : Type 0 where
  pub follows : Follows fl t.store d t.live
  pub snapshot :
      ((t.saved ≡ none) × (t.store ≡ s₀))
      ⊎ ((t.saved ≡ some t.store) × (t.store.magic ≡ config_magic))

module _ {F : Type 0} (fl : Float F) where
  applied_rate :
      (axis : ℕ) (g : PidGains F) (l : Live F)
      → axis < 3
      → apply_gains fl 1 axis g l
        ≡ some
            (record l { rate = put l.rate axis (set_gains fl g.kp g.ki g.kd g.kff (l.rate axis)) })
  unfolding apply_gains
  applied_rate axis g l a =
      let k : ltb axis 3 ≡ true = ground (arith, a) in simp (apply_gains, k) refl

  applied_angle :
      (axis : ℕ) (g : PidGains F) (l : Live F)
      → axis < 3
      → apply_gains fl 0 axis g l
        ≡ some (record l {
          angle = put l.angle axis (set_gains fl g.kp g.ki g.kd g.kff (l.angle axis));
        })
  unfolding apply_gains
  applied_angle axis g l a =
      let k : ltb axis 3 ≡ true = ground (arith, a) in simp (apply_gains, k) refl

  -- A value that is saved leaves the store as it was written.
  commit-Sound :
      (s : Store F) (l : Live F) (t : Tune F) (s₀ : Store F) (d : Live F)
      → Follows fl s d l
      → Sound fl s₀ d (commit (some l) s t).1
  unfolding save
  commit-Sound s l t s₀ d f = record {
    follows = record {
      of_rate = f.of_rate;
      of_angle = f.of_angle;
      of_gyro = f.of_gyro;
      of_bank = f.of_bank;
      of_on = f.of_on;
      allocated = f.allocated;
      positive = f.positive;
    };
    snapshot = inr (refl, refl);
  }

  -- What a command leaves is sound.
  abbrev Kept : Store F → Live F → Status × Tune F → Type 0
  Kept s₀ d r = Sound fl s₀ d r.1

  set_slot-Sound :
      (ctrl axis : ℕ) (g : PidGains F) (t : Tune F) (s₀ : Store F) (d : Live F)
      → ctrl < 2
      → axis < 3
      → g.valid ≡ true
      → Sound fl s₀ d t
      → Kept s₀ d (set_slot fl ctrl axis g t)
  unfolding set_slot
  set_slot-Sound ctrl axis g t s₀ d c a v f = elim (Bool-cases (finite_gains fl g)) [
    | inr n ↦ simp (set_slot, n) f
    | inl y ↦ elim (Bool-cases (ctrl == 1)) [
      | inl e ↦
          simp (set_slot, y, applied_rate axis g t.live a, (==_iff ctrl 1).0 e)
            (commit-Sound _ _ t s₀ d (rate_gains-Follows fl axis g t.store d t.live v a f.follows))
      | inr e ↦
          let z : ctrl ≡ 0 = ground (arith, e) in
          simp (set_slot, y, applied_angle axis g t.live a, z)
            (commit-Sound _ _ t s₀ d (angle_gains-Follows fl axis g t.store d t.live v a f.follows))
    ]
  ]

  set_gyro_slot-Sound :
      (axis : ℕ) (rc : F) (t : Tune F) (s₀ : Store F) (d : Live F)
      → axis < 3
      → Sound fl s₀ d t
      → Kept s₀ d (set_gyro_slot fl axis rc t)
  unfolding set_gyro_slot apply_gyro_lpf
  set_gyro_slot-Sound axis rc t s₀ d a f =
      let k : ltb axis 3 ≡ true = ground (arith, a) in
      elim (Bool-cases (is_constant fl rc)) [
        | inr n ↦ simp (set_gyro_slot, n) f
        | inl y ↦
            simp (set_gyro_slot, apply_gyro_lpf, y, k)
              (commit-Sound _ _ t s₀ d (gyro-Follows fl axis rc t.store d t.live f.follows))
      ]

  set_d_slot-Sound :
      (axis : ℕ) (rc : F) (t : Tune F) (s₀ : Store F) (d : Live F)
      → axis < 3
      → Sound fl s₀ d t
      → Kept s₀ d (set_d_slot fl axis rc t)
  unfolding set_d_slot apply_d_lpf
  set_d_slot-Sound axis rc t s₀ d a f =
      let k : ltb axis 3 ≡ true = ground (arith, a) in
      elim (Bool-cases (is_constant fl rc)) [
        | inr n ↦ simp (set_d_slot, n) f
        | inl y ↦
            simp (set_d_slot, apply_d_lpf, y, k)
              (commit-Sound _ _ t s₀ d (d_lpf-Follows fl axis rc t.store d t.live a f.follows))
      ]

  notch_command-Sound :
      (on : Bool) (n : Detection F) (t : Tune F) (s₀ : Store F) (d : Live F)
      → Sound fl s₀ d t
      → Kept s₀ d (apply_gyro_notch fl on n t)
  unfolding apply_gyro_notch
  notch_command-Sound on n t s₀ d f =
      elim (Bool-cases (
        not (fl.is_finite n.q)
        || (not (fl.is_finite n.fmin_hz)
            || (not (fl.is_finite n.fmax_hz) || not (fl.is_finite n.min_ratio))))) [
              | inl e ↦ simp (apply_gyro_notch, e) f
              | inr e ↦
                  simp (apply_gyro_notch, e)
                    (commit-Sound _ _ t s₀ d (notch-Follows fl on n t.store d t.live f.follows))
            ]

  geometry-Sound :
      (x y : ℕ → F) (spin : ℕ → ℤ) (t : Tune F) (s₀ : Store F) (d : Live F)
      → Sound fl s₀ d t
      → Kept s₀ d (store_motor_geometry fl x y spin t)
  unfolding store_motor_geometry
  geometry-Sound x y spin t s₀ d f = elim (Bool-cases (all_finite fl x && all_finite fl y)) [
    | inr e ↦ simp (store_motor_geometry, e) f
    | inl e ↦
        simp (store_motor_geometry, e)
          (commit-Sound _ _ t s₀ d (record {
            of_rate = f.follows.of_rate;
            of_angle = f.follows.of_angle;
            of_gyro = f.follows.of_gyro;
            of_bank = f.follows.of_bank;
            of_on = f.follows.of_on;
            allocated = f.follows.allocated;
            positive = f.follows.positive;
          }))
  ]

module _ {F : Type 0} (fl : Float F) (read_f : List ℕ → F) (trunc : F → ℤ) where
  -- A command, on the state that it finds.
  unfoldable pub obey : Command F → Tune F → Status × Tune F
  obey (pid_command p n) t = apply_command fl read_f trunc p n t
  obey (gyro_lpf_command p n) t = apply_gyro_lpf_command fl read_f trunc p n t
  obey (d_lpf_command p n) t = apply_d_lpf_command fl read_f trunc p n t
  obey (notch_command on d) t = apply_gyro_notch fl on d t
  obey (geometry_command x y spin) t = store_motor_geometry fl x y spin t
  obey (learned_band lo hi) t = (ok, end_autoband fl lo hi t)

  pub obey-Sound :
      (c : Command F) (t : Tune F) (s₀ : Store F) (d : Live F)
      → is_stored c ≡ true
      → Sound fl s₀ d t
      → Kept fl s₀ d (obey c t)
  unfolding obey apply_command apply_gyro_lpf_command apply_d_lpf_command
  obey-Sound (pid_command q n) t s₀ d k f = elim (Option-cases (framed 6 q n)) [
    | inl e ↦ simp (apply_command, e) f
    | inr (p, e) ↦ elim (Option-cases (selector (rounded fl read_f trunc p 0) 2)) [
      | inl g ↦ simp (apply_command, e, g) f
      | inr (c, g) ↦ elim (Option-cases (selector (rounded fl read_f trunc p 1) 3)) [
        | inl h ↦ simp (apply_command, e, g, h) f
        | inr (a, h) ↦
            simp (apply_command, e, g, h)
              (set_slot-Sound fl c a (gains_of fl read_f trunc p) t s₀ d
                (selector_lt (rounded fl read_f trunc p 0) 2 c g)
                (selector_lt (rounded fl read_f trunc p 1) 3 a h) refl f)
      ]
    ]
  ]
  obey-Sound (gyro_lpf_command q n) t s₀ d k f = elim (Option-cases (framed 2 q n)) [
    | inl e ↦ simp (apply_gyro_lpf_command, e) f
    | inr (p, e) ↦ elim (Option-cases (selector (rounded fl read_f trunc p 0) 3)) [
      | inl g ↦ simp (apply_gyro_lpf_command, e, g) f
      | inr (a, g) ↦
          simp (apply_gyro_lpf_command, e, g)
            (set_gyro_slot-Sound fl a _ t s₀ d (selector_lt (rounded fl read_f trunc p 0) 3 a g) f)
    ]
  ]
  obey-Sound (d_lpf_command q n) t s₀ d k f = elim (Option-cases (framed 2 q n)) [
    | inl e ↦ simp (apply_d_lpf_command, e) f
    | inr (p, e) ↦ elim (Option-cases (selector (rounded fl read_f trunc p 0) 3)) [
      | inl g ↦ simp (apply_d_lpf_command, e, g) f
      | inr (a, g) ↦
          simp (apply_d_lpf_command, e, g)
            (set_d_slot-Sound fl a _ t s₀ d (selector_lt (rounded fl read_f trunc p 0) 3 a g) f)
    ]
  ]
  obey-Sound (notch_command on n) t s₀ d k f = notch_command-Sound fl on n t s₀ d f
  obey-Sound (geometry_command x y spin) t s₀ d k f = geometry-Sound fl x y spin t s₀ d f
  obey-Sound (learned_band lo hi) t s₀ d k f = absurd (ground (arith, k))
