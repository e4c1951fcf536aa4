-- ===== src/Control/Throttle.antt =====
-- firmware/src/control/throttle_curve.c.
use vayu.Common.{◌≡◌, false, not, ◌||◌, if◌then◌else◌, Bool-cases, inl, inr}
use vayu.Maths.{Float, IsOrder, IsWithin, m_clamp-IsWithin}

module _ {F : Type 0} (fl : Float F) where
  abbrev pub clampf : F → F → F → F
  clampf v lo hi = if fl.lt v lo then lo else if fl.lt hi v then hi else v

  -- `throttle_curve_expo`.
  unfoldable pub throttle_curve_expo : F → F
  throttle_curve_expo hover_duty =
      clampf (fl.div (fl.neg (fl.sub hover_duty (fl.lit 5 1))) (fl.lit 375 3)) (fl.neg (fl.lit 5 1))
        (fl.lit 1 0)

  -- The thrust that the shaped stick asks for, from `expo` and the clamped stick.
  unfoldable pub thrust_of : F → F → F → F
  thrust_of stick hover_duty expo =
      let x = fl.mul (fl.lit 2 0) (fl.sub stick (fl.lit 5 1)) in
      let y = fl.add (fl.mul (fl.sub (fl.lit 1 0) expo) x) (fl.mul (fl.mul (fl.mul expo x) x) x) in
      let s = fl.add (fl.lit 5 1) (fl.mul (fl.lit 5 1) y) in
      let hover_thrust = fl.mul hover_duty hover_duty in
      if fl.le s (fl.lit 5 1)
      then fl.mul (fl.mul s (fl.lit 2 0)) hover_thrust
      else fl.add hover_thrust
          (fl.mul (fl.mul (fl.sub s (fl.lit 5 1)) (fl.lit 2 0)) (fl.sub (fl.lit 1 0) hover_thrust))

  -- `throttle_curve`.
  unfoldable pub throttle_curve : F → F → F
  throttle_curve stick hover_duty =
      let s = clampf stick (fl.lit 0 0) (fl.lit 1 0) in
      if not (fl.lt (fl.lit 0 0) hover_duty) || not (fl.lt hover_duty (fl.lit 1 0))
      then s
      else clampf
          (fl.sqrt (
            clampf (thrust_of s hover_duty (throttle_curve_expo hover_duty)) (fl.lit 0 0)
              (fl.lit 1 0)))
          (fl.lit 0 0) (fl.lit 1 0)

  -- Whatever the stick and the hover constant are, the shaped collective is neither below 0 nor above 1.
  pub throttle_curve-IsWithin :
      (stick hover_duty : F)
      → IsOrder fl
      → fl.lt (fl.lit 1 0) (fl.lit 0 0) ≡ false
      → IsWithin fl (fl.lit 0 0) (fl.lit 1 0) (throttle_curve stick hover_duty)
  unfolding throttle_curve
  throttle_curve-IsWithin stick hover_duty law o =
      elim (Bool-cases
        (not (fl.lt (fl.lit 0 0) hover_duty) || not (fl.lt hover_duty (fl.lit 1 0)))) [
          | inl h ↦ simp (throttle_curve, h) (m_clamp-IsWithin fl _ _ _ law o)
          | inr h ↦ simp (throttle_curve, h) (m_clamp-IsWithin fl _ _ _ law o)
        ]
