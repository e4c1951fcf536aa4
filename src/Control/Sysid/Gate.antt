-- ===== src/Control/Sysid/Gate.antt =====
-- What firmware/src/control/sysid.c lets through to the axes, whatever the arithmetic rounds to.
use vayu.Common.{
  ℕ, ◌≡◌, ◌⊎◌, refl, Bool, true, false, not, ◌&&◌, ◌||◌, by_test, inl, inr, List, [], ◌∷◌,
  if◌then◌else◌, ◌+◌, length, ltb, leb, ◌==◌, ℤ, arith,
}
use vayu.Maths.{Float, IsOrder, IsWithin, m_clamp-IsWithin}
use vayu.Control.Sysid.{
  Sysid, Request, start, begun, abort, step, capture, dump_request, dump_next, max_amp, chosen_mode,
  exceeds, envelope, advanced, zero_s, decimation, cap_samples,
}

-- What the firmware asks of the excitation: a command to start with what the allocator answers, an
-- abort, a tick of the control loop, a sample of the control loop, a command to dump and a turn of the
-- telemetry task.
pub data Event (F : Type 0) : Type 0 where
  begin : Bool → Request F → Event F
  stop : Event F
  tick : F → (ℕ → F) → (ℕ → F) → Event F
  sample : (ℕ → F) → (ℕ → F) → Event F
  ask : Event F
  hand_out : ℕ → Event F

-- The largest amplitude in a mode: 0.3 of the control effort in the mode 1, and else 120 deg/s.
abbrev pub amp_cap : {F : Type 0} → Float F → ℕ → F
amp_cap fl mode = if mode == 1 then fl.lit 30 2 else fl.lit 120 0

-- An angle or a rate without its sign.
abbrev pub unsigned : {F : Type 0} → Float F → F → F
unsigned fl a = if fl.lt a (fl.lit 0 0) then fl.neg a else a

-- The order of the bounds.
pub record IsLadder {F : Type 0} (fl : Float F) : Type 0 where
  pub order : IsOrder fl
  pub amp_up : (mode : ℕ) → fl.lt (amp_cap fl mode) (fl.lit 0 0) ≡ false
  pub freq_up : fl.lt (fl.lit 40 0) (fl.lit 1 1) ≡ false
  pub dur_up : fl.lt (fl.lit 12 0) (fl.lit 1 1) ≡ false
  pub unit_up : fl.lt (fl.lit 1 0) (zero_s fl) ≡ false

-- A request within the caps.
pub record IsCapped {F : Type 0} (fl : Float F) (mode : ℕ) (amp f0 f1 dur : F) : Type 0 where
  pub amp_in : IsWithin fl (fl.lit 0 0) (amp_cap fl mode) amp
  pub from_in : IsWithin fl (fl.lit 1 1) (fl.lit 40 0) f0
  pub to_in : IsWithin fl f0 (fl.lit 40 0) f1
  pub dur_in : IsWithin fl (fl.lit 1 1) (fl.lit 12 0) dur

negated : (b : Bool) → not b ≡ false → b ≡ true
negated b h = ground (arith, h)

or_left : (a b : Bool) → a || b ≡ false → a ≡ false
or_left a b h = ground (arith, h)

or_right : (a b : Bool) → a || b ≡ false → b ≡ false
or_right a b h = ground (arith, h)

module _ {F : Type 0} (fl : Float F) (m_sin : F → F) (trunc : F → ℤ) where
  abbrev pub happen : Event F → Sysid F → Sysid F
  happen (begin malloc_ok req) s = (start fl malloc_ok req s).1
  happen stop s = abort s
  happen (tick dt angles rates) s = (step fl m_sin dt angles rates s).1
  happen (sample u gyro) s = capture fl trunc (u, gyro) s
  happen ask s = dump_request s
  happen (hand_out room) s = (dump_next room s).1

  abbrev pub happens : List (Event F) → Sysid F → Sysid F
  happens [] s = s
  happens (e ∷ es) s = happens es (happen e s)

  -- An injection on an axis: none, or a wave on the axis of an active run within the caps, which the
  -- limits allow and whose time is not over.
  pub record IsWave (dt : F) (angles rates : ℕ → F) (s : Sysid F) (i : ℕ) (v : F) : Type 0 where
    pub envelope_of : F
    pub angle_of : F
    pub wave : v ≡ fl.mul (fl.mul s.amp envelope_of) (m_sin angle_of)
    pub fades : IsWithin fl (zero_s fl) (fl.lit 1 0) envelope_of
    pub on : s.active ≡ true
    pub excited : (i == s.axis) ≡ true
    pub angle_low : fl.lt (fl.lit 35 0) (unsigned fl (angles s.axis)) ≡ false
    pub rate_low : fl.lt (fl.lit 300 0) (unsigned fl (rates s.axis)) ≡ false
    pub in_time : fl.le s.dur (fl.add s.elapsed dt) ≡ false
    pub forward : fl.le dt (zero_s fl) ≡ false
    pub steady : fl.lt (fl.lit 1 1) dt ≡ false
    pub capped : IsCapped fl s.mode s.amp s.f0 s.f1 s.dur

  -- An active run is within the caps.
  abbrev IsSafe : Sysid F → Type 0
  IsSafe s = s.active ≡ true → IsCapped fl s.mode s.amp s.f0 s.f1 s.dur

  begun-IsSafe : (req : Request F) (s : Sysid F) → IsLadder fl → IsSafe (begun fl req s)
  begun-IsSafe req s law on =
      let start_in =
        m_clamp-IsWithin fl req.f0_hz (fl.lit 1 1) (fl.lit 40 0) law.order law.freq_up in
      record {
        amp_in =
            m_clamp-IsWithin fl req.amp_dps (zero_s fl) (max_amp fl (chosen_mode fl req.mode))
              law.order (law.amp_up (chosen_mode fl req.mode));
        from_in = start_in;
        to_in =
            m_clamp-IsWithin fl req.f1_hz (begun fl req s).f0 (fl.lit 40 0) law.order
              start_in.below;
        dur_in = m_clamp-IsWithin fl req.duration_s (fl.lit 1 1) (fl.lit 12 0) law.order law.dur_up;
      }

  start-IsSafe :
      (m : Bool) (req : Request F) (s : Sysid F)
      → IsLadder fl
      → IsSafe s
      → IsSafe (start fl m req s).1
  unfolding start
  start-IsSafe m req s law k =
      by_test (λ (r : Bool × Sysid F). IsSafe r.1) (ltb 2 req.axis) (λ _. k)
        (λ _.
          by_test (λ (r : Bool × Sysid F). IsSafe r.1) (not s.allocated && not m) (λ _. k)
            (λ _. begun-IsSafe req s law))

  step-IsSafe :
      (dt : F) (angles rates : ℕ → F) (s : Sysid F)
      → IsSafe s
      → IsSafe (step fl m_sin dt angles rates s).1
  unfolding step
  step-IsSafe dt angles rates s k =
      let IsOk : (ℕ → F) × Sysid F → Type 0 = λ r. IsSafe r.1 in
      by_test IsOk (not s.active) (λ _. k)
        (λ _.
          by_test IsOk (fl.le dt (zero_s fl) || fl.lt (fl.lit 1 1) dt) (λ _. k)
            (λ _.
              by_test IsOk (exceeds fl angles rates s) (λ _ h. absurd (ground (arith, h)))
                (λ _.
                  by_test IsOk (fl.le s.dur (fl.add s.elapsed dt))
                    (λ _ h. absurd (ground (arith, h))) (λ _. k))))

  capture-IsSafe : (x : (ℕ → F) × (ℕ → F)) (s : Sysid F) → IsSafe s → IsSafe (capture fl trunc x s)
  unfolding capture
  capture-IsSafe x s k =
      by_test IsSafe (not s.active || not s.allocated) (λ _. k)
        (λ _.
          by_test IsSafe (ltb (s.decim + 1) decimation) (λ _. k)
            (λ _. by_test IsSafe (leb cap_samples (length s.cap)) (λ _. k) (λ _. k)))

  dump_next-IsSafe : (room : ℕ) (s : Sysid F) → IsSafe s → IsSafe (dump_next room s).1
  unfolding dump_next
  dump_next-IsSafe room s k =
      by_test (λ (r : (ℕ × List (ℤ × ℤ)) × Sysid F). IsSafe r.1)
        (not s.dump_active || leb (length s.cap) s.dump_pos) (λ _. k) (λ _. k)

  happen-IsSafe : (e : Event F) (s : Sysid F) → IsLadder fl → IsSafe s → IsSafe (happen e s)
  unfolding abort dump_request
  happen-IsSafe (begin m req) s law k = start-IsSafe m req s law k
  happen-IsSafe stop s law k = λ h. absurd (ground (arith, h))
  happen-IsSafe (tick dt angles rates) s law k = step-IsSafe dt angles rates s k
  happen-IsSafe (sample u gyro) s law k = capture-IsSafe (u, gyro) s k
  happen-IsSafe ask s law k = k
  happen-IsSafe (hand_out room) s law k = dump_next-IsSafe room s k

  happens-IsSafe :
      (es : List (Event F)) (s : Sysid F) → IsLadder fl → IsSafe s → IsSafe (happens es s)
  happens-IsSafe [] s law k = k
  happens-IsSafe (e ∷ es) s law k = happens-IsSafe es (happen e s) law (happen-IsSafe e s law k)

  step_gated :
      (dt : F) (angles rates : ℕ → F) (s : Sysid F) (i : ℕ)
      → IsLadder fl
      → IsSafe s
      → let v = (step fl m_sin dt angles rates s).0 i in
        (v ≡ zero_s fl) ⊎ IsWave dt angles rates s i v
  unfolding step
  step_gated dt angles rates s i law k =
      let IsOk : F → Type 0 = λ v. (v ≡ zero_s fl) ⊎ IsWave dt angles rates s i v in
      let elapsed = fl.add s.elapsed dt in
      by_test (λ (r : (ℕ → F) × Sysid F). IsOk (r.0 i)) (not s.active) (λ _. inl refl)
        (λ on.
          by_test (λ (r : (ℕ → F) × Sysid F). IsOk (r.0 i))
            (fl.le dt (zero_s fl) || fl.lt (fl.lit 1 1) dt) (λ _. inl refl)
            (λ steady.
              by_test (λ (r : (ℕ → F) × Sysid F). IsOk (r.0 i)) (exceeds fl angles rates s)
                (λ _. inl refl)
                (λ in_limits.
                  by_test (λ (r : (ℕ → F) × Sysid F). IsOk (r.0 i)) (fl.le s.dur elapsed)
                    (λ _. inl refl)
                    (λ in_time.
                      by_test IsOk (i == s.axis)
                        (λ excited. inr (record {
                          envelope_of = envelope fl elapsed s;
                          angle_of = advanced fl dt elapsed s;
                          wave = refl;
                          fades =
                              m_clamp-IsWithin fl _ (zero_s fl) (fl.lit 1 0) law.order law.unit_up;
                          on = negated s.active on;
                          excited = excited;
                          angle_low =
                              or_left _ (fl.lt (fl.lit 300 0) (unsigned fl (rates s.axis)))
                                in_limits;
                          rate_low =
                              or_right (fl.lt (fl.lit 35 0) (unsigned fl (angles s.axis))) _
                                in_limits;
                          in_time = in_time;
                          forward = or_left _ (fl.lt (fl.lit 1 1) dt) steady;
                          steady = or_right (fl.le dt (zero_s fl)) _ steady;
                          capped = k (negated s.active on);
                        }))
                        (λ _. inl refl)))))

-- Whatever the firmware asked of an excitation that was not active, in any order, in a tick of the
-- control loop each axis gets nothing, or it is the excited axis of an active run; then the tick is
-- neither at most 0 s nor above 0.1 s, the angle without its sign is not above 35 degrees nor the rate
-- above 300 deg/s, the time is not at or over the duration, and what the axis gets is a sine times an
-- envelope that is neither below 0 nor above 1 times an amplitude that is neither below 0 nor above 0.3 in
-- the mode 1 and 120 in the others, with a first frequency neither below 0.1 nor above 40 Hz, a second neither
-- below the first nor above 40 Hz, and a duration neither below 0.1 nor above 12 s. What is not a number is neither
-- below nor above any, so it passes each of these tests.
pub injection_gated :
    {F : Type 0} (fl : Float F) (m_sin : F → F) (trunc : F → ℤ) (es : List (Event F)) (s : Sysid F)
    (dt : F) (angles rates : ℕ → F) (i : ℕ)
    → IsLadder fl
    → s.active ≡ false
    → let t = happens fl m_sin trunc es s in
      let v = (step fl m_sin dt angles rates t).0 i in
      (v ≡ zero_s fl) ⊎ IsWave fl m_sin trunc dt angles rates t i v
injection_gated fl m_sin trunc es s dt angles rates i law off =
    step_gated fl m_sin trunc dt angles rates (happens fl m_sin trunc es s) i law
      (happens-IsSafe fl m_sin trunc es s law (λ on. absurd (ground (arith, on, off))))
