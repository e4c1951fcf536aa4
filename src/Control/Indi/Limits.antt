-- ===== src/Control/Indi/Limits.antt =====
-- The commands of firmware/src/control/rate_indi.c.
use vayu.Common.{
  ◌≡◌, refl, sym, ap₂, ◌∙◌, false, not, ◌||◌, List, [], ◌∷◌, Bool-cases, inl, inr, ◌⊎◌,
}
use mathlib.Core.Path.{subst}
use vayu.Maths.{Float, IsOrder, IsWithin}
use vayu.Control.Indi.{Indi, init, reset, update, set_applied, limited}

-- The calls on a controller.
pub data Call (F : Type 0) : Type 0 where
  step : F → F → F → Call F
  applied : F → Call F
  clear : Call F

module _ {F : Type 0} (fl : Float F) where
  pub call : Call F → Indi F → Indi F
  call (step sp meas dt) c = (update fl sp meas dt c).1
  call (applied u) c = set_applied fl u c
  call clear c = reset fl c

  pub calls : List (Call F) → Indi F → Indi F
  calls [] c = c
  calls (k ∷ ks) c = calls ks (call k c)

  -- No call moves the limits.
  call_limits :
      (k : Call F) (c : Indi F)
      → ((call k c).out_min ≡ c.out_min) × ((call k c).out_max ≡ c.out_max)
  unfolding call update set_applied reset
  call_limits (step sp meas dt) c = elim (Bool-cases (not c.initialized || fl.le dt (fl.lit 0 0))) [
    | inl h ↦ simp (call, update, h) (refl, refl)
    | inr h ↦ simp (call, update, h) (refl, refl)
  ]
  call_limits (applied u) c = elim (Bool-cases (fl.is_finite u)) [
    | inl h ↦ simp (call, set_applied, h) (refl, refl)
    | inr h ↦ simp (call, set_applied, h) (refl, refl)
  ]
  call_limits clear c = (refl, refl)

  calls_limits :
      (ks : List (Call F)) (c : Indi F)
      → ((calls ks c).out_min ≡ c.out_min) × ((calls ks c).out_max ≡ c.out_max)
  unfolding calls
  calls_limits [] c = (refl, refl)
  calls_limits (k ∷ ks) c =
      let a = calls_limits ks (call k c) in let b = call_limits k c in (a.0 ∙ b.0, a.1 ∙ b.1)

  limited-IsWithin :
      (u : F) (c : Indi F)
      → IsOrder fl
      → fl.lt c.out_max c.out_min ≡ false
      → IsWithin fl c.out_min c.out_max (limited fl u c)
  unfolding limited
  limited-IsWithin u c law o = elim (Bool-cases (fl.lt u c.out_min)) [
    | inl h ↦ simp (limited, h, o) (record { above = law.irrefl c.out_min; below = o })
    | inr h ↦ elim (Bool-cases (fl.lt c.out_max u)) [
      | inl g ↦ simp (limited, h, g) (record { above = o; below = law.irrefl c.out_max })
      | inr g ↦ simp (limited, h, g) (record { above = h; below = g })
    ]
  ]

  update-cases :
      (sp meas dt : F) (c : Indi F)
      → ((update fl sp meas dt c).0 ≡ fl.lit 0 0)
        ⊎ ((u : F) × ((update fl sp meas dt c).0 ≡ limited fl u c))
  unfolding update
  update-cases sp meas dt c = elim (Bool-cases (not c.initialized || fl.le dt (fl.lit 0 0))) [
    | inl h ↦ simp (update, h) (inl refl)
    | inr h ↦ simp (update, h) (inr (_, refl))
  ]

  init_order :
      (b k rc lo hi : F)
      → IsOrder fl
      → fl.lt (init fl b k rc lo hi).out_max (init fl b k rc lo hi).out_min ≡ false
  unfolding init
  init_order b k rc lo hi law = elim (Bool-cases (fl.lt lo hi)) [
    | inl h ↦ simp h (law.asym lo hi h)
    | inr h ↦ simp h refl
  ]

  -- After initialisation with any arguments, limits in the wrong order included, and any calls, each
  -- command is 0, as on the first sample, or neither below the lower limit nor above the upper one.
  commands_in_limits :
      (b k rc lo hi : F) (ks : List (Call F)) (sp meas dt : F)
      → IsOrder fl
      → ((update fl sp meas dt (calls ks (init fl b k rc lo hi))).0 ≡ fl.lit 0 0)
        ⊎ IsWithin fl
            (init fl b k rc lo hi).out_min
            (init fl b k rc lo hi).out_max
            (update fl sp meas dt (calls ks (init fl b k rc lo hi))).0
  commands_in_limits b k rc lo hi ks sp meas dt law =
      elim (update-cases sp meas dt (calls ks (init fl b k rc lo hi))) [
        | inl e ↦ inl e
        | inr (u, e) ↦
            let i = init fl b k rc lo hi in
            let c = calls ks i in
            let l = calls_limits ks i in
            let w =
              limited-IsWithin u c law
                (ap₂ (λ x y. fl.lt x y) l.1 l.0 ∙ init_order b k rc lo hi law) in
            inr (
              subst (λ v. IsWithin fl i.out_min i.out_max v) (sym e)
                (subst (λ x. IsWithin fl x i.out_max (limited fl u c)) l.0
                  (subst (λ y. IsWithin fl c.out_min y (limited fl u c)) l.1 w)))
      ]
