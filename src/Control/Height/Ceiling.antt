-- ===== src/Control/Height/Ceiling.antt =====
-- The ceiling on the collective of firmware/src/control/height_controller.c, whatever the arithmetic
-- rounds to.
use vayu.Common.{
  ◌≡◌, ◌⊎◌, refl, true, false, not, ◌&&◌, ◌||◌, Bool-cases, by_test, inl, inr, arith, List, [], ◌∷◌,
}
use vayu.Maths.{Float}
use vayu.Control.Height.{
  Mode, Height, Input, reset, safe_collective, handback_arm, handback_step, climb_rate_pi,
  disengage, engage, lift_over, hand_off, drive, give_up, guarded, update, thr_max, thr_min,
  idle_throttle, is_off, is_land, is_hold, same, zero_h, timed,
}

-- What the order of the numbers and of three constants must satisfy.
pub record IsLadder {F : Type 0} (fl : Float F) : Type 0 where
  pub irrefl : (a : F) → fl.lt a a ≡ false
  pub trans : (a b c : F) → fl.lt a b ≡ true → fl.lt b c ≡ true → fl.lt a c ≡ true
  pub min_under : fl.lt (thr_max fl) (thr_min fl) ≡ false
  pub idle_under : fl.lt (thr_max fl) (idle_throttle fl) ≡ false

-- Neither the last command nor the value held in a hand-back is above the maximum.
pub record IsUnder {F : Type 0} (fl : Float F) (last_out handback_thr : F) : Type 0 where
  pub last_under : fl.lt (thr_max fl) last_out ≡ false
  pub back_under : fl.lt (thr_max fl) handback_thr ≡ false

module _ {F : Type 0} (fl : Float F) where
  abbrev IsCapped : Height F → Type 0
  IsCapped h = IsUnder fl h.last_out h.handback_thr

  -- A collective that is the stick or not above the maximum, and the controller behind it.
  abbrev IsSafe : F → F × Height F → Type 0
  IsSafe stick r = ((r.0 ≡ stick) ⊎ (fl.lt (thr_max fl) r.0 ≡ false)) × IsCapped r.1

  safe_under :
      (h : Height F) → IsLadder fl → IsCapped h → fl.lt (thr_max fl) (safe_collective fl h) ≡ false
  safe_under h law c =
      by_test (λ v. fl.lt (thr_max fl) v ≡ false) (fl.lt h.base h.last_out)
        (λ e. elim (Bool-cases (fl.lt (thr_max fl) h.base)) [
          | inl g ↦
              absurd (ground (arith, law.trans (thr_max fl) h.base h.last_out g e, c.last_under))
          | inr g ↦ g
        ])
        (λ e. c.last_under)

  handback_step-IsSafe :
      (x : Input F) (h : Height F) → IsCapped h → IsSafe x.stick (handback_step fl x h)
  unfolding handback_step
  handback_step-IsSafe x h c =
      by_test (IsSafe x.stick) (not h.handback) (λ _. (inl refl, c))
        (λ _.
          by_test (IsSafe x.stick) (not x.in_air || fl.le h.handback_thr x.stick)
            (λ _. (inl refl, record { last_under = c.last_under; back_under = c.back_under }))
            (λ _. (inr c.back_under, c)))

  -- A collective that is not above the maximum, and the controller behind it.
  abbrev IsRate : F × Height F → Type 0
  IsRate r = (fl.lt (thr_max fl) r.0 ≡ false) × IsCapped r.1

  -- The loop on the climb rate never asks for more than the maximum.
  pi_under :
      (sp : F) (x : Input F) (h : Height F)
      → IsLadder fl
      → IsCapped h
      → IsRate (climb_rate_pi fl sp x h)
  unfolding climb_rate_pi
  pi_under sp x h law c =
      let k : IsUnder fl h.last_out h.handback_thr = c in
      by_test IsRate (fl.lt (thr_max fl) _) (λ _. (law.irrefl (thr_max fl), k))
        (λ e. by_test IsRate (fl.lt _ (thr_min fl)) (λ _. (law.min_under, k)) (λ _. (e, k)))

  kept_pi-IsSafe :
      (sp : F) (x : Input F) (h : Height F)
      → IsLadder fl
      → IsCapped h
      → let r = climb_rate_pi fl sp x h in IsSafe x.stick (r.0, record r.1 { last_out = r.0 })
  kept_pi-IsSafe sp x h law c =
      let k = pi_under sp x h law c in
      (inr k.0, record { last_under = k.0; back_under = k.1.back_under })

  drive-IsSafe :
      (mode : Mode) (x : Input F) (h : Height F)
      → IsLadder fl
      → IsCapped h
      → IsSafe x.stick (drive fl mode x h)
  unfolding drive
  drive-IsSafe mode x h law c =
      by_test (IsSafe x.stick) (is_land mode)
        (λ _.
          by_test (IsSafe x.stick) (h.landed || (fl.le x.alt_m (fl.lit 12 2) || not x.in_air))
            (λ _. (
              inr law.idle_under,
              record { last_under = law.idle_under; back_under = c.back_under },
            ))
            (λ _. kept_pi-IsSafe _ x h law c))
        (λ _. kept_pi-IsSafe _ x h law c)

  give_up-IsSafe :
      (x : Input F) (h : Height F) → IsLadder fl → IsCapped h → IsSafe x.stick (give_up fl x h)
  unfolding give_up handback_arm
  give_up-IsSafe x h law c =
      handback_step-IsSafe x
        (handback_arm fl (record h { failed = true; engaged = false; i = zero_h fl }))
        (record { last_under = c.last_under; back_under = safe_under h law c })

  guarded-IsSafe :
      (mode : Mode) (x : Input F) (h : Height F)
      → IsLadder fl
      → IsCapped h
      → IsSafe x.stick (guarded fl mode x h)
  unfolding guarded
  guarded-IsSafe mode x h law c =
      by_test (IsSafe x.stick) (x.in_air && fl.lt (fl.add h.alt_sp (fl.lit 2 0)) x.alt_m)
        (λ _.
          by_test (IsSafe x.stick) (fl.le (fl.lit 1 0) (timed fl x h).runaway_t)
            (λ _. give_up-IsSafe x (timed fl x h) law c)
            (λ _. drive-IsSafe mode x (timed fl x h) law c))
        (λ _. drive-IsSafe mode x _ law c)

  disengage-IsSafe :
      (x : Input F) (h : Height F) → IsLadder fl → IsCapped h → IsSafe x.stick (disengage fl x h)
  unfolding disengage
  disengage-IsSafe x h law c = handback_step-IsSafe x _ (
      by_test IsCapped (h.engaged && x.in_air)
        (λ _. record { last_under = c.last_under; back_under = safe_under h law c }) (λ _. c))

  engage-IsCapped : (x : Input F) (h : Height F) → IsCapped h → IsCapped (engage fl x h)
  unfolding engage
  engage-IsCapped x h c =
      by_test IsCapped h.engaged (λ _. c) (λ _. by_test IsCapped x.in_air (λ _. c) (λ _. c))

  lift_over-IsCapped : (x : Input F) (h : Height F) → IsCapped h → IsCapped (lift_over fl x h)
  unfolding lift_over
  lift_over-IsCapped x h c =
      by_test IsCapped (h.lifting_off && fl.le h.alt_sp x.alt_m) (λ _. c) (λ _. c)

  hand_off-IsCapped :
      (mode : Mode) (x : Input F) (h : Height F) → IsCapped h → IsCapped (hand_off fl mode x h)
  unfolding hand_off
  hand_off-IsCapped mode x h c =
      by_test IsCapped (same x.alt_is_tof h.src_is_tof) (λ _. c)
        (λ _. by_test IsCapped (is_hold mode && not h.lifting_off) (λ _. c) (λ _. c))

  update-IsSafe :
      (mode : Mode) (x : Input F) (h : Height F)
      → IsLadder fl
      → IsCapped h
      → IsSafe x.stick (update fl mode x h)
  unfolding update
  update-IsSafe mode x h law c =
      by_test (IsSafe x.stick) (is_off mode) (λ _. disengage-IsSafe x h law c)
        (λ _.
          by_test (IsSafe x.stick) h.failed (λ _. handback_step-IsSafe x h c)
            (λ _.
              guarded-IsSafe mode x _ law
                (hand_off-IsCapped mode x _ (lift_over-IsCapped x _ (engage-IsCapped x h c)))))

  -- The controller after a list of steps.
  unfoldable pub steps : List (Mode × Input F) → Height F → Height F
  steps [] h = h
  steps ((mode, x) ∷ rest) h = steps rest (update fl mode x h).1

  steps-IsCapped :
      (xs : List (Mode × Input F)) (h : Height F) → IsLadder fl → IsCapped h → IsCapped (steps xs h)
  unfolding steps
  steps-IsCapped [] h law c = c
  steps-IsCapped ((mode, x) ∷ rest) h law c =
      steps-IsCapped rest (update fl mode x h).1 law (update-IsSafe mode x h law c).1

  -- After a reset and any steps, in any modes and with any measurements, the next step returns the pilot's
  -- stick or a collective that is not above 0.85, in a hand-back after a runaway too; one that is not a
  -- number is not above it. This holds for any arithmetic whose order is irreflexive and transitive and
  -- has neither 0.25 nor 0 above 0.85.
  pub collective_capped :
      (xs : List (Mode × Input F)) (h : Height F) (mode : Mode) (x : Input F)
      → IsLadder fl
      → let out = (update fl mode x (steps xs (reset fl h))).0 in
        (out ≡ x.stick) ⊎ (fl.lt (thr_max fl) out ≡ false)
  unfolding reset
  collective_capped xs h mode x law =
      (update-IsSafe mode x _ law (
        steps-IsCapped xs _ law
          (record { last_under = law.idle_under; back_under = law.idle_under }))).0
