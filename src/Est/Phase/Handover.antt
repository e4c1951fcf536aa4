-- ===== src/Est/Phase/Handover.antt =====
-- What the events of firmware/src/est/flight_phase.c do to the system state.
use vayu.Common.{◌≡◌, refl, ap, ap₂, true, false, Bool-cases, inl, inr, ◌⊎◌, arith}
use vayu.Maths.{Float}
use vayu.State.{
  SysState, uninitialized, init, standby, prearm, armed, in_air, failsafe, terminated, calibrating,
  esc_calib, set,
}
use vayu.Est.Phase.{
  Event, no_event, takeoff, land, Phase, Sample, update, hand_over, sample_in, is_armed, is_in_air,
  await_takeoff, await_land, referenced, latched, takeoff_gate, land_gate,
}

-- Which events a state can give.
abbrev pub CanGive : SysState → Event → Type 0
CanGive st no_event = ◌≡◌ st st
CanGive st takeoff = st ≡ armed
CanGive st land = st ≡ in_air

module _ {F : Type 0} (fl : Float F) where
  await_takeoff-cases :
      (x : Sample F) (fp : Phase F)
      → ((await_takeoff fl x fp).0 ≡ no_event) ⊎ ((await_takeoff fl x fp).0 ≡ takeoff)
  unfolding await_takeoff
  await_takeoff-cases x fp = elim (Bool-cases (takeoff_gate fl x fp)) [
    | inr g ↦ simp (await_takeoff, g) (inl refl)
    | inl g ↦ elim (Bool-cases (fl.le (fl.lit 3 1) (fl.add fp.takeoff_timer x.dt))) [
      | inl l ↦ simp (await_takeoff, g, l) (inr refl)
      | inr l ↦ simp (await_takeoff, g, l) (inl refl)
    ]
  ]

  await_land-cases :
      (x : Sample F) (fp : Phase F)
      → ((await_land fl x fp).0 ≡ no_event) ⊎ ((await_land fl x fp).0 ≡ land)
  unfolding await_land
  await_land-cases x fp = elim (Bool-cases (land_gate fl x fp)) [
    | inr g ↦ simp (await_land, g) (inl refl)
    | inl g ↦ elim (Bool-cases (fl.le (fl.lit 7 1) (fl.add fp.land_timer x.dt))) [
      | inl l ↦ simp (await_land, g, l) (inr refl)
      | inr l ↦ simp (await_land, g, l) (inl refl)
    ]
  ]

  -- The event of an update, by the flags.
  update-cases :
      (x : Sample F) (fp : Phase F)
      → ((update fl x fp).0 ≡ no_event)
        ⊎ (((x.armed ≡ true) × (x.in_air ≡ false) × ((update fl x fp).0 ≡ takeoff))
            ⊎ ((x.armed ≡ true) × (x.in_air ≡ true) × ((update fl x fp).0 ≡ land)))
  unfolding update
  update-cases x fp =
      let f = latched fl x (referenced fl x fp) in
      elim (Bool-cases x.armed) [
        | inr a ↦ simp (update, a) (inl refl)
        | inl a ↦ elim (Bool-cases (fl.le x.dt (fl.lit 0 0))) [
          | inl d ↦ simp (update, a, d) (inl refl)
          | inr d ↦ elim (Bool-cases x.in_air) [
            | inl i ↦ elim (await_land-cases x f) [
              | inl e ↦ simp (update, a, d, i) (inl e)
              | inr e ↦ simp (update, a, d, i) (inr (inr (refl, refl, e)))
            ]
            | inr i ↦ elim (await_takeoff-cases x f) [
              | inl e ↦ simp (update, a, d, i) (inl e)
              | inr e ↦ simp (update, a, d, i) (inr (inl (refl, refl, e)))
            ]
          ]
        ]
      ]

-- The comparisons tell the two states.
told_in_air : (st : SysState) → is_in_air st ≡ true → st ≡ in_air
told_in_air uninitialized h = absurd (ground (arith, h))
told_in_air init h = absurd (ground (arith, h))
told_in_air standby h = absurd (ground (arith, h))
told_in_air prearm h = absurd (ground (arith, h))
told_in_air armed h = absurd (ground (arith, h))
told_in_air in_air h = refl
told_in_air failsafe h = absurd (ground (arith, h))
told_in_air terminated h = absurd (ground (arith, h))
told_in_air calibrating h = absurd (ground (arith, h))
told_in_air esc_calib h = absurd (ground (arith, h))

told_armed : (st : SysState) → is_armed st ≡ true → st ≡ armed
told_armed uninitialized h = absurd (ground (arith, h))
told_armed init h = absurd (ground (arith, h))
told_armed standby h = absurd (ground (arith, h))
told_armed prearm h = absurd (ground (arith, h))
told_armed armed h = refl
told_armed in_air h = absurd (ground (arith, h))
told_armed failsafe h = absurd (ground (arith, h))
told_armed terminated h = absurd (ground (arith, h))
told_armed calibrating h = absurd (ground (arith, h))
told_armed esc_calib h = absurd (ground (arith, h))

module _ {F : Type 0} (fl : Float F) where
  -- When no other task changes the state between the read and the request, a step of the detector
  -- leaves the system state as it is, or moves it from ARMED to IN_AIR, or from IN_AIR to ARMED: it
  -- neither arms nor disarms, and reaches no other state.
  phase_moves :
      (st : SysState) (x : Sample F) (fp : Phase F)
      → (hand_over (update fl (sample_in fl st x) fp).0 st ≡ st)
        ⊎ (((st ≡ armed) × (hand_over (update fl (sample_in fl st x) fp).0 st ≡ in_air))
            ⊎ ((st ≡ in_air) × (hand_over (update fl (sample_in fl st x) fp).0 st ≡ armed)))
  unfolding hand_over set
  phase_moves st x fp = elim (update-cases fl (sample_in fl st x) fp) [
    | inl e ↦ inl (ap (λ v. hand_over v st) e)
    | inr (inl (a, i, e)) ↦
        let s = told_armed st (ground (arith, a, i)) in
        inr (inl (s, ap₂ (λ v t. hand_over v t) e s))
    | inr (inr (a, i, e)) ↦
        let s = told_in_air st i in inr (inr (s, ap₂ (λ v t. hand_over v t) e s))
  ]
