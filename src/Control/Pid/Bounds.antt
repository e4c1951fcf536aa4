-- ===== src/Control/Pid/Bounds.antt =====
-- The limits of firmware/src/control/pid.c, whatever the arithmetic rounds to.
use vayu.Common.{
  ◌≡◌, refl, sym, ap, Bool, true, false, Bool-cases, inl, inr, if◌then◌else◌, arith, List, [], ◌∷◌,
}
use mathlib.Core.Path.{subst}
use vayu.Maths.{Float, IsOrder, IsSpreading, IsWithin, m_clamp-IsWithin}
use vayu.Control.Pid.{
  Pid, update, reset, set_integral, set_gains, set_sat_excess, set_d_lpf_rc, set_prev_meas, zero_f,
  stores,
}

-- The integral is within plus and minus `i_max`, as zero is, and the limits are in order.
pub record IsInLimits {F : Type 0} (fl : Float F) (integral i_max out_min out_max : F)
    : Type 0 where
  pub integral_within : IsWithin fl (fl.neg i_max) i_max integral
  pub i_order : fl.lt i_max (fl.neg i_max) ≡ false
  pub zero_within : IsWithin fl (fl.neg i_max) i_max (zero_f fl)
  pub out_order : fl.lt out_max out_min ≡ false

abbrev pub IsLimited : {F : Type 0} → Float F → Pid F → Type 0
IsLimited fl p = IsInLimits fl p.integral p.i_max p.out_min p.out_max

-- The calls that the owner of a controller makes between two changes of `i_max`.
pub data Call (F : Type 0) : Type 0 where
  step : F → F → F → F → Call F
  clear : Call F
  preset_integral : F → Call F
  gains : F → F → F → F → Call F
  excess : F → Call F
  filter : F → Call F
  rebase : F → Call F

module _ {F : Type 0} (fl : Float F) where
  pub call : Call F → Pid F → Pid F
  call (step sp meas sp_dot dt) p = (update fl sp meas sp_dot dt p).1
  call clear p = reset fl p
  call (preset_integral i) p = set_integral fl i p
  call (gains kp ki kd kff) p = set_gains fl kp ki kd kff p
  call (excess e) p = set_sat_excess fl e p
  call (filter rc) p = set_d_lpf_rc fl rc p
  call (rebase m) p = set_prev_meas fl m p

  pub calls : List (Call F) → Pid F → Pid F
  calls [] p = p
  calls (c ∷ cs) p = calls cs (call c p)

  either-IsWithin :
      (b : Bool) (lo hi x y : F)
      → IsWithin fl lo hi x
      → IsWithin fl lo hi y
      → IsWithin fl lo hi (if b then x else y)
  either-IsWithin true lo hi x y h g = h
  either-IsWithin false lo hi x y h g = g

  -- One step that does not return early: its output, and the limits that it leaves.
  update_lem :
      (sp meas sp_dot dt : F) (p : Pid F)
      → IsOrder fl
      → IsLimited fl p
      → fl.le dt (fl.lit 1 6) ≡ false
      → IsWithin fl p.out_min p.out_max (update fl sp meas sp_dot dt p).0
        × IsLimited fl (update fl sp meas sp_dot dt p).1
  unfolding update
  update_lem sp meas sp_dot dt p law l h = elim (Bool-cases p.initialized) [
    | inl g ↦
        simp (update, h, g)
          (
            m_clamp-IsWithin fl _ _ _ law l.out_order,
            record {
              integral_within =
                  either-IsWithin _ _ _ _ _ (m_clamp-IsWithin fl _ _ _ law l.i_order)
                    l.integral_within;
              i_order = l.i_order;
              zero_within = l.zero_within;
              out_order = l.out_order;
            },
          )
    | inr g ↦
        simp (update, h, g)
          (
            m_clamp-IsWithin fl _ _ _ law l.out_order,
            record {
              integral_within =
                  either-IsWithin _ _ _ _ _ (m_clamp-IsWithin fl _ _ _ law l.i_order)
                    l.integral_within;
              i_order = l.i_order;
              zero_within = l.zero_within;
              out_order = l.out_order;
            },
          )
  ]

  update_early :
      (sp meas sp_dot dt : F) (p : Pid F)
      → fl.le dt (fl.lit 1 6) ≡ true
      → update fl sp meas sp_dot dt p ≡ (zero_f fl, p)
  unfolding update
  update_early sp meas sp_dot dt p h = simp (update, h) refl

  -- Every call keeps the limits.
  call-IsLimited : (c : Call F) (p : Pid F) → IsOrder fl → IsLimited fl p → IsLimited fl (call c p)
  unfolding call update reset set_integral set_gains set_sat_excess set_d_lpf_rc set_prev_meas
  call-IsLimited (step sp meas sp_dot dt) p law l = elim (Bool-cases (fl.le dt (fl.lit 1 6))) [
    | inl h ↦ subst (IsLimited fl) (sym (ap (λ r. r.1) (update_early sp meas sp_dot dt p h))) l
    | inr h ↦ (update_lem sp meas sp_dot dt p law l h).1
  ]
  call-IsLimited clear p law l = record {
    integral_within = l.zero_within;
    i_order = l.i_order;
    zero_within = l.zero_within;
    out_order = l.out_order;
  }
  call-IsLimited (preset_integral i) p law l = record {
    integral_within = m_clamp-IsWithin fl _ _ _ law l.i_order;
    i_order = l.i_order;
    zero_within = l.zero_within;
    out_order = l.out_order;
  }
  call-IsLimited (gains kp ki kd kff) p law l = l
  call-IsLimited (excess e) p law l = l
  call-IsLimited (filter rc) p law l = l
  call-IsLimited (rebase m) p law l = l

  calls-IsLimited :
      (cs : List (Call F)) (p : Pid F) → IsOrder fl → IsLimited fl p → IsLimited fl (calls cs p)
  unfolding calls
  calls-IsLimited [] p law l = l
  calls-IsLimited (c ∷ cs) p law l = calls-IsLimited cs (call c p) law (call-IsLimited c p law l)

  -- Take a controller whose limits are in order, with zero and the integral within plus and minus
  -- `i_max`. After any calls other than a change of `i_max` or of the output limits, in any order and with
  -- any arguments, the integral is neither below minus `i_max` nor above it, and the output of a next
  -- step with a dt above 1e-6 is neither below `out_min` nor above `out_max`. This holds for any
  -- arithmetic, also when an argument is not a number.
  pub limits_hold :
      (cs : List (Call F)) (p : Pid F) (sp meas sp_dot dt : F)
      → IsOrder fl
      → IsLimited fl p
      → fl.le dt (fl.lit 1 6) ≡ false
      → IsWithin fl (fl.neg (calls cs p).i_max) (calls cs p).i_max (calls cs p).integral
        × IsWithin fl
            (calls cs p).out_min
            (calls cs p).out_max
            (update fl sp meas sp_dot dt (calls cs p)).0
  limits_hold cs p sp meas sp_dot dt law l h =
      let k = calls-IsLimited cs p law l in
      (k.integral_within, (update_lem sp meas sp_dot dt (calls cs p) law k h).0)

  not_stored :
      (error output_pi i : F) (p : Pid F)
      → fl.lt p.out_min output_pi ≡ false
      → (if stores fl error output_pi p then i else p.integral) ≡ p.integral
  not_stored error output_pi i p h = ground (arith, h)

  -- A step whose measurement is not a number leaves the integral as it is, so that it never enters the
  -- integrator.
  nan_not_integrated :
      (sp meas sp_dot dt : F) (p : Pid F)
      → IsOrder fl
      → IsSpreading fl
      → fl.is_nan meas ≡ true
      → (update fl sp meas sp_dot dt p).1.integral ≡ p.integral
  unfolding update
  nan_not_integrated sp meas sp_dot dt p law spread h =
      let low : (a b x : F) → fl.lt a (fl.add (fl.mul b (fl.sub sp meas)) x) ≡ false = λ a b x.
        law.nan_above _ _ (spread.add_left _ _ (spread.mul_right _ _ (spread.sub_right _ _ h))) in
      elim (Bool-cases (fl.le dt (fl.lit 1 6))) [
        | inl e ↦ ap (λ r. r.1.integral) (update_early sp meas sp_dot dt p e)
        | inr e ↦ elim (Bool-cases p.initialized) [
          | inl g ↦ simp (update, e, g) (not_stored _ _ _ p (low p.out_min p.kp _))
          | inr g ↦
              simp (update, e, g)
                (not_stored _ _ _
                  (record p { prev_meas = meas; d_filtered = zero_f fl; initialized = true })
                  (low p.out_min p.kp _))
        ]
      ]
