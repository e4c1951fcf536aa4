-- ===== src/Est/Hover/Band.antt =====
-- What firmware/src/est/hover_estimate.c can come to believe.
use vayu.Common.{◌≡◌, refl, false, List, [], ◌∷◌, Bool-cases, inl, inr}
use vayu.Maths.{Float, IsOrder, IsWithin, m_clamp-IsWithin}
use vayu.Est.Hover.{Hover, Sample, init, update, steady, settle_s, min_est, max_est}

module _ {F : Type 0} (fl : Float F) where
  -- Updates in order.
  pub updates : List (Sample F) → Hover F → Hover F
  updates [] h = h
  updates (x ∷ xs) h = updates xs (update fl x h)

  -- No sample is steady.
  pub data IsUnsteady : List (Sample F) → Type 0 where
    never : IsUnsteady []
    later :
        {x : Sample F} {xs : List (Sample F)}
        → steady fl x ≡ false
        → IsUnsteady xs
        → IsUnsteady (x ∷ xs)

  update-IsWithin :
      (x : Sample F) (h : Hover F)
      → IsOrder fl
      → fl.lt (max_est fl) (min_est fl) ≡ false
      → IsWithin fl (min_est fl) (max_est fl) h.estimate
      → IsWithin fl (min_est fl) (max_est fl) (update fl x h).estimate
  unfolding update
  update-IsWithin x h law o w = elim (Bool-cases (steady fl x)) [
    | inr s ↦ simp (update, s) w
    | inl s ↦ elim (Bool-cases (fl.lt (fl.add h.settle_t x.dt) (settle_s fl))) [
      | inl t ↦ simp (update, s, t) w
      | inr t ↦ simp (update, s, t) (m_clamp-IsWithin fl _ _ _ law o)
    ]
  ]

  updates-IsWithin :
      (xs : List (Sample F)) (h : Hover F)
      → IsOrder fl
      → fl.lt (max_est fl) (min_est fl) ≡ false
      → IsWithin fl (min_est fl) (max_est fl) h.estimate
      → IsWithin fl (min_est fl) (max_est fl) (updates xs h).estimate
  unfolding updates
  updates-IsWithin [] h law o w = w
  updates-IsWithin (x ∷ xs) h law o w =
      updates-IsWithin xs (update fl x h) law o (update-IsWithin x h law o w)

  -- From any seed, the hover collective is never below 0.10 nor above 0.80, after any samples and with
  -- any arithmetic.
  pub estimate_in_band :
      (initial : F) (xs : List (Sample F))
      → IsOrder fl
      → fl.lt (max_est fl) (min_est fl) ≡ false
      → IsWithin fl (min_est fl) (max_est fl) (updates xs (init fl initial)).estimate
  unfolding init
  estimate_in_band initial xs law o =
      updates-IsWithin xs (init fl initial) law o (m_clamp-IsWithin fl initial _ _ law o)

  -- Samples that are not steady leave the estimate as it is, and unmeasured if it was.
  pub unsteady_kept :
      (xs : List (Sample F)) (h : Hover F)
      → IsUnsteady xs
      → ((updates xs h).estimate ≡ h.estimate) × ((updates xs h).measured ≡ h.measured)
  unfolding updates update
  unsteady_kept [] h never = (refl, refl)
  unsteady_kept (x ∷ xs) h (later s ss) =
      simp (updates, update, s) (unsteady_kept xs (record h { settle_t = fl.lit 0 0 }) ss)
