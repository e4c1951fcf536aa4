-- ===== src/Est/Phase/Takeoff.antt =====
-- When firmware/src/est/flight_phase.c reports a takeoff.
use vayu.Common.{
  ◌≡◌, refl, ap₂, ◌∙◌, Bool, true, false, ◌&&◌, ◌||◌, List, [], ◌∷◌, Bool-cases, inl, inr, arith,
}
use vayu.Maths.{Float}
use vayu.Est.Phase.{
  Event, no_event, takeoff, land, Phase, Sample, update, run, grounded, referenced, latched,
  await_takeoff, await_land, takeoff_gate, land_gate, takeoff_throttle,
}

-- The throttle of no sample is above the takeoff gate.
pub data IsIdle {F : Type 0} (fl : Float F) : List (Sample F) → Type 0 where
  still : IsIdle fl []
  more :
      {x : Sample F} {xs : List (Sample F)}
      → fl.lt (takeoff_throttle fl) x.throttle ≡ false
      → IsIdle fl xs
      → IsIdle fl (x ∷ xs)

-- A list of events has no takeoff.
abbrev pub is_takeoff : Event → Bool
is_takeoff no_event = false
is_takeoff takeoff = true
is_takeoff land = false

abbrev pub any_takeoff : List Event → Bool
any_takeoff [] = false
any_takeoff (e ∷ es) = is_takeoff e || any_takeoff es

module _ {F : Type 0} (fl : Float F) where
  referenced_powered : (x : Sample F) (fp : Phase F) → (referenced fl x fp).powered ≡ fp.powered
  unfolding referenced
  referenced_powered x fp = elim (Bool-cases (x.tof_valid && fp.have_tof_ref)) [
    | inl h ↦ simp (referenced, h) refl
    | inr h ↦ simp (referenced, h) refl
  ]

  await_takeoff-unpowered :
      (x : Sample F) (fp : Phase F)
      → fp.powered ≡ false
      → (is_takeoff (await_takeoff fl x fp).0 ≡ false) × ((await_takeoff fl x fp).1.powered ≡ false)
  unfolding await_takeoff
  await_takeoff-unpowered x fp h =
      let g : takeoff_gate fl x fp ≡ false = ground (arith, h) in simp (await_takeoff, g) (refl, h)

  await_land-unpowered :
      (x : Sample F) (fp : Phase F)
      → fp.powered ≡ false
      → (is_takeoff (await_land fl x fp).0 ≡ false) × ((await_land fl x fp).1.powered ≡ false)
  unfolding await_land
  await_land-unpowered x fp h = elim (Bool-cases (land_gate fl x fp)) [
    | inr g ↦ simp (await_land, g) (refl, h)
    | inl g ↦ elim (Bool-cases (fl.le (fl.lit 7 1) (fl.add fp.land_timer x.dt))) [
      | inl l ↦ simp (await_land, g, l) (refl, h)
      | inr l ↦ simp (await_land, g, l) (refl, h)
    ]
  ]

  latched_powered :
      (x : Sample F) (fp : Phase F)
      → fl.lt (takeoff_throttle fl) x.throttle ≡ false
      → (latched fl x (referenced fl x fp)).powered ≡ fp.powered
  unfolding latched
  latched_powered x fp h = simp (latched, h) (referenced_powered x fp)

  update-unpowered :
      (x : Sample F) (fp : Phase F)
      → fl.lt (takeoff_throttle fl) x.throttle ≡ false
      → fp.powered ≡ false
      → (is_takeoff (update fl x fp).0 ≡ false) × ((update fl x fp).1.powered ≡ false)
  unfolding update grounded
  update-unpowered x fp h p =
      let f = latched fl x (referenced fl x fp) in
      let q = latched_powered x fp h ∙ p in
      elim (Bool-cases x.armed) [
        | inr a ↦ simp (update, grounded, a) (refl, refl)
        | inl a ↦ elim (Bool-cases (fl.le x.dt (fl.lit 0 0))) [
          | inl d ↦ simp (update, a, d) (refl, q)
          | inr d ↦ elim (Bool-cases x.in_air) [
            | inl i ↦ simp (update, a, d, i) (await_land-unpowered x f q)
            | inr i ↦ simp (update, a, d, i) (await_takeoff-unpowered x f q)
          ]
        ]
      ]

  -- No takeoff is reported without lift having been commanded: from a state whose throttle latch is not
  -- set, samples of which none has a throttle above 0.35 give no takeoff event, whatever the heights,
  -- the climb rates and the arm flags are, and leave the latch unset.
  pub no_takeoff_unpowered :
      (xs : List (Sample F)) (fp : Phase F)
      → fp.powered ≡ false
      → IsIdle fl xs
      → (any_takeoff (run fl xs fp).0 ≡ false) × ((run fl xs fp).1.powered ≡ false)
  unfolding run
  no_takeoff_unpowered [] fp p still = (refl, p)
  no_takeoff_unpowered (x ∷ xs) fp p (more h hs) =
      let u = update-unpowered x fp h p in
      let r = no_takeoff_unpowered xs (update fl x fp).1 u.1 hs in
      (ap₂ (λ a b. a || b) u.0 r.0, r.1)

  -- Disarming clears the latch, so that a new climb needs a new command.
  pub disarmed_unpowered :
      (x : Sample F) (fp : Phase F) → x.armed ≡ false → (update fl x fp).1.powered ≡ false
  unfolding update grounded
  disarmed_unpowered x fp h = simp (update, grounded, h) refl
