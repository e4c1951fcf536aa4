-- ===== src/Control/Sysid/Endless.antt =====
-- What a duration that is not a number does to a run of firmware/src/control/sysid.c.
use vayu.Common.{
  ℕ, ◌≡◌, refl, ap, ◌∙◌, Bool, true, false, not, ◌&&◌, ◌||◌, by_test, List, [], ◌∷◌, arith,
}
use vayu.Maths.{Float, IsOrder}
use vayu.Control.Sysid.Accepted.{begun_lem}
use vayu.Control.Sysid.{Sysid, Request, start, begun, step, magnitude, exceeds}

-- The period, the angles and the rates of a tick.
abbrev pub Tick : Type 0 → Type 0
Tick F = F × (ℕ → F) × (ℕ → F)

and_left : (a b : Bool) → a && b ≡ true → a ≡ true
and_left a b h = ground (arith, h)

and_right : (a b : Bool) → a && b ≡ true → b ≡ true
and_right a b h = ground (arith, h)

unnegated : (b : Bool) → not b ≡ true → b ≡ false
unnegated b h = ground (arith, h)

module _ {F : Type 0} (fl : Float F) where
  -- Neither the angle nor the rate of an axis is above its limit.
  abbrev pub calm : ℕ → List (Tick F) → Bool
  calm axis [] = true
  calm axis ((dt, angles, rates) ∷ xs) =
      not (
        fl.lt (fl.lit 35 0) (magnitude fl (angles axis))
        || fl.lt (fl.lit 300 0) (magnitude fl (rates axis)))
      && calm axis xs

module _ {F : Type 0} (fl : Float F) (m_sin : F → F) where
  abbrev pub ticks : List (Tick F) → Sysid F → Sysid F
  ticks [] s = s
  ticks ((dt, angles, rates) ∷ xs) s = ticks xs (step fl m_sin dt angles rates s).1

  -- An active run on an axis whose duration is not a number.
  record IsEndless (axis : ℕ) (s : Sysid F) : Type 0 where
    on : s.active ≡ true
    same_axis : s.axis ≡ axis
    endless : fl.is_nan s.dur ≡ true

  step-IsEndless :
      (dt : F) (angles rates : ℕ → F) (axis : ℕ) (s : Sysid F)
      → ((a b : F) → fl.is_nan a ≡ true → fl.le a b ≡ false)
      → (fl.lt (fl.lit 35 0) (magnitude fl (angles axis))
          || fl.lt (fl.lit 300 0) (magnitude fl (rates axis)))
        ≡ false
      → IsEndless axis s
      → IsEndless axis (step fl m_sin dt angles rates s).1
  unfolding step
  step-IsEndless dt angles rates axis s nan_le c k =
      let IsOk : (ℕ → F) × Sysid F → Type 0 = λ r. IsEndless axis r.1 in
      by_test IsOk (not s.active) (λ _. k)
        (λ _.
          by_test IsOk (fl.le dt (fl.lit 0 0) || fl.lt (fl.lit 1 1) dt) (λ _. k)
            (λ _.
              by_test IsOk (exceeds fl angles rates s)
                (λ e. absurd (ground (arith, e, c, k.same_axis)))
                (λ _.
                  by_test IsOk (fl.le s.dur (fl.add s.elapsed dt))
                    (λ e. absurd (ground (arith, e, nan_le s.dur (fl.add s.elapsed dt) k.endless)))
                    (λ _. record { on = k.on; same_axis = k.same_axis; endless = k.endless }))))

  ticks-IsEndless :
      (xs : List (Tick F)) (axis : ℕ) (s : Sysid F)
      → ((a b : F) → fl.is_nan a ≡ true → fl.le a b ≡ false)
      → calm fl axis xs ≡ true
      → IsEndless axis s
      → IsEndless axis (ticks xs s)
  ticks-IsEndless [] axis s nan_le c k = k
  ticks-IsEndless ((dt, angles, rates) ∷ xs) axis s nan_le c k =
      ticks-IsEndless xs axis (step fl m_sin dt angles rates s).1 nan_le (and_right _ _ c)
        (step-IsEndless dt angles rates axis s nan_le (unnegated _ (and_left _ _ c)) k)

-- When a request starts a run with a duration that is not a number, the run stays active however many
-- ticks there are, as long as neither the angle nor the rate of its axis is above its limit.
pub endless_run :
    {F : Type 0} (fl : Float F) (m_sin : F → F) (malloc_ok : Bool) (req : Request F) (s : Sysid F)
    (xs : List (Tick F))
    → IsOrder fl
    → ((a b : F) → fl.is_nan a ≡ true → fl.le a b ≡ false)
    → (start fl malloc_ok req s).0 ≡ true
    → fl.is_nan req.duration_s ≡ true
    → calm fl req.axis xs ≡ true
    → (ticks fl m_sin xs (start fl malloc_ok req s).1).active ≡ true
endless_run fl m_sin malloc_ok req s xs law nan_le ok nan c =
    let below = law.nan_below req.duration_s (fl.lit 1 1) nan in
    let above = law.nan_above (fl.lit 12 0) req.duration_s nan in
    ap (λ t. (ticks fl m_sin xs t).active) (begun_lem fl malloc_ok req s ok)
    ∙ (ticks-IsEndless fl m_sin xs req.axis (begun fl req s) nan_le c
        (record { on = refl; same_axis = refl; endless = simp (below, above, nan) })).on
