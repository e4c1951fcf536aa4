-- ===== src/PidConfig/Restored.antt =====
-- What the boot of firmware/src/control/pid_config.c makes of a store.
use mathlib.Core.Path.{subst}
use vayu.Common.{
  ℕ, ◌<◌, ◌≡◌, refl, sym, ◌∙◌, Bool, true, false, Option, none, some, ltb, if◌then◌else◌, arith,
  Bool-cases, inl, inr,
}
use vayu.Maths.{Float}
use vayu.Control.Pid.{Pid, init, set_gains, set_d_lpf_rc}
use vayu.PidConfig.{
  Detection, Store, Live, get_slot, get_gyro_lpf, get_d_lpf, get_gyro_notch, ctrl_rate, ctrl_angle,
  rate_axis, angle_axis, gyro_axis, notch_at_boot, restore, or_zero, notch_set_params,
}
use vayu.PidConfig.Follows.{
  Follows, IsPositive, SameAlloc, set_params-IsPositive, set_params-SameAlloc,
}

module _ {F : Type 0} (fl : Float F) where
  get_slot_lem :
      (ctrl i : ℕ) (s : Store F)
      → ltb ctrl 2 ≡ true
      → i < 3
      → get_slot ctrl i s ≡ (if (s.gains ctrl i).valid then some (s.gains ctrl i) else none)
  unfolding get_slot
  get_slot_lem ctrl i s c h =
      let k : ltb i 3 ≡ true = ground (arith, h) in
      elim (Bool-cases (s.gains ctrl i).valid) [
        | inl v ↦ simp (get_slot, c, k, v) refl
        | inr v ↦ simp (get_slot, c, k, v) refl
      ]

  get_d_lpf_lem :
      (i : ℕ) (s : Store F)
      → i < 3
      → get_d_lpf i s ≡ (if s.d_lpf_valid i then some (s.d_lpf i) else none)
  unfolding get_d_lpf
  get_d_lpf_lem i s h =
      let k : ltb i 3 ≡ true = ground (arith, h) in
      elim (Bool-cases (s.d_lpf_valid i)) [
        | inl v ↦ simp (get_d_lpf, k, v) refl
        | inr v ↦ simp (get_d_lpf, k, v) refl
      ]

  -- What `rate_axis` makes of a compiled controller.
  rate_axis_lem :
      (s : Store F) (i : ℕ) (p : Pid F)
      → i < 3
      → let r = rate_axis fl s i p in
        let g = s.gains 1 i in
        (r.kp ≡ (if g.valid then g.kp else p.kp))
        × (r.ki ≡ (if g.valid then g.ki else p.ki))
        × (r.kd ≡ (if g.valid then g.kd else p.kd))
        × (r.kff ≡ (if g.valid then g.kff else p.kff))
        × (r.d_lpf_rc ≡ (if s.d_lpf_valid i then or_zero fl (s.d_lpf i) else p.d_lpf_rc))
  unfolding rate_axis init set_gains set_d_lpf_rc
  rate_axis_lem s i p h = elim (Bool-cases (s.gains 1 i).valid) [
    | inl v ↦ elim (Bool-cases (s.d_lpf_valid i)) [
      | inl w ↦
          simp (rate_axis, get_slot_lem ctrl_rate i s refl h, get_d_lpf_lem i s h, v, w)
            (refl, refl, refl, refl, refl)
      | inr w ↦
          simp (rate_axis, get_slot_lem ctrl_rate i s refl h, get_d_lpf_lem i s h, v, w)
            (refl, refl, refl, refl, refl)
    ]
    | inr v ↦ elim (Bool-cases (s.d_lpf_valid i)) [
      | inl w ↦
          simp (rate_axis, get_slot_lem ctrl_rate i s refl h, get_d_lpf_lem i s h, v, w)
            (refl, refl, refl, refl, refl)
      | inr w ↦
          simp (rate_axis, get_slot_lem ctrl_rate i s refl h, get_d_lpf_lem i s h, v, w)
            (refl, refl, refl, refl, refl)
    ]
  ]

  -- What `angle_axis` makes of a compiled controller.
  angle_axis_lem :
      (s : Store F) (i : ℕ) (p : Pid F)
      → i < 3
      → let r = angle_axis fl s i p in
        let g = s.gains 0 i in
        (r.kp ≡ (if g.valid then g.kp else p.kp))
        × (r.ki ≡ (if g.valid then g.ki else p.ki))
        × (r.kd ≡ (if g.valid then g.kd else p.kd))
        × (r.kff ≡ (if g.valid then g.kff else p.kff))
        × (r.d_lpf_rc ≡ p.d_lpf_rc)
  unfolding angle_axis init set_gains
  angle_axis_lem s i p h = elim (Bool-cases (s.gains 0 i).valid) [
    | inl v ↦
        simp (angle_axis, get_slot_lem ctrl_angle i s refl h, v) (refl, refl, refl, refl, refl)
    | inr v ↦
        simp (angle_axis, get_slot_lem ctrl_angle i s refl h, v) (refl, refl, refl, refl, refl)
  ]

  gyro_axis_lem :
      (s : Store F) (i : ℕ) (rc : F)
      → i < 3
      → gyro_axis fl s i rc ≡ (if s.gyro_lpf_valid i then or_zero fl (s.gyro_lpf i) else rc)
  unfolding gyro_axis get_gyro_lpf
  gyro_axis_lem s i rc h =
      let k : ltb i 3 ≡ true = ground (arith, h) in
      elim (Bool-cases (s.gyro_lpf_valid i)) [
        | inl v ↦ simp (gyro_axis, get_gyro_lpf, k, v) refl
        | inr v ↦ simp (gyro_axis, get_gyro_lpf, k, v) refl
      ]

  notch_restored :
      (s : Store F) (b : Option (Detection F))
      → (notch_at_boot fl s b).0 ≡ (if s.notch_valid then notch_set_params fl s.notch b else b)
  unfolding notch_at_boot get_gyro_notch
  notch_restored s b = elim (Bool-cases s.notch_valid) [
    | inl v ↦ simp (notch_at_boot, get_gyro_notch, v) refl
    | inr v ↦ simp (notch_at_boot, get_gyro_notch, v) refl
  ]

  notch_on_restored :
      (s : Store F) (b : Option (Detection F)) (o : Bool)
      → o ≡ false
      → (notch_at_boot fl s b).1 ≡ (if s.notch_valid then s.notch_enabled else o)
  unfolding notch_at_boot get_gyro_notch
  notch_on_restored s b o e = elim (Bool-cases s.notch_valid) [
    | inl v ↦ simp (notch_at_boot, get_gyro_notch, v) refl
    | inr v ↦ simp (notch_at_boot, get_gyro_notch, v) (sym e)
  ]

  alloc_self : (b : Option (Detection F)) → SameAlloc b b
  alloc_self none = tt
  alloc_self (some b) = tt

  notch_at_boot-SameAlloc :
      (s : Store F) (b : Option (Detection F)) → SameAlloc b (notch_at_boot fl s b).0
  notch_at_boot-SameAlloc s b = elim (Bool-cases s.notch_valid) [
    | inl v ↦
        subst (SameAlloc b) (sym (notch_restored s b ∙ (simp v refl)))
          (set_params-SameAlloc fl s.notch b b (alloc_self b))
    | inr v ↦ subst (SameAlloc b) (sym (notch_restored s b ∙ (simp v refl))) (alloc_self b)
  ]

  notch_at_boot-IsPositive :
      (s : Store F) (b : Option (Detection F))
      → IsPositive fl b
      → IsPositive fl (notch_at_boot fl s b).0
  notch_at_boot-IsPositive s b p = elim (Bool-cases s.notch_valid) [
    | inl v ↦
        subst (IsPositive fl) (sym (notch_restored s b ∙ (simp v refl)))
          (set_params-IsPositive fl s.notch b p)
    | inr v ↦ subst (IsPositive fl) (sym (notch_restored s b ∙ (simp v refl))) p
  ]

  -- What a boot makes of a store follows it.
  pub restore-Follows :
      (s : Store F) (d : Live F)
      → d.notch_on ≡ false
      → IsPositive fl d.bank
      → Follows fl s d (restore fl s d)
  unfolding restore
  restore-Follows s d n p = record {
    of_rate = λ i h.
        let (a, b, c, e, q) = rate_axis_lem s i (d.rate i) h in
        record { of_kp = a; of_ki = b; of_kd = c; of_kff = e; of_d_lpf = q };
    of_angle = λ i h.
        let (a, b, c, e, q) = angle_axis_lem s i (d.angle i) h in
        record { of_kp = a; of_ki = b; of_kd = c; of_kff = e; of_d_lpf = q };
    of_gyro = λ i h. gyro_axis_lem s i (d.gyro_rc i) h;
    of_bank = notch_restored s d.bank;
    of_on = notch_on_restored s d.bank d.notch_on n;
    allocated = notch_at_boot-SameAlloc s d.bank;
    positive = notch_at_boot-IsPositive s d.bank p;
  }
