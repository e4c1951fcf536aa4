-- ===== src/Rc/Task/Arming.antt =====
-- When an RC frame arms, disarms or fails safe (firmware/src/comm/rc_task.c).
use mathlib.Core.Path.{subst}
use vayu.Common.{
  length-set, inl, inr, Bool-cases, not, ◌&&◌, ltb, ◌==◌, ℕ, ◌<◌, ◌≤◌, ◌≡◌, ◌≢◌, ◌⊎◌, refl, Bool,
  true, false, List, get_or, set, length, arith, get_or-set_self, get_or-set_ne, sym, ◌∙◌, ap,
}
use vayu.Ibus.{IbusData}
use vayu.State
use vayu.State.Rules.{set-failsafe}
use vayu.State.{SysState, standby, armed, in_air, failsafe, esc_calib}
use vayu.EscCalib.Safety.{rc_step-sys}
use vayu.Rc.Safety.{
  Safety, Detector, mark_frame_valid, note_implausible, arm_engaged, arm_preconditions_met,
  has_signal,
}
use vayu.Rc.Task.{centre, Rc, Env, deadband, judge, judged, banded, noted, detected, apply_frame}

-- Whether the throttle failsafe trips on the frame.
abbrev pub trips : Env → Rc → Bool
trips env r = (detected env r).1

abbrev is_off_centre : ℕ → List ℕ → Bool
is_off_centre i ch = not (i == 2) && (ltb 1490 (get_or ch i 0) && ltb (get_or ch i 0) 1510)

get_or-centre_ne :
    (i j : ℕ) (ch : List ℕ) → (i ≢ j) ⊎ (i ≡ 2) → get_or (centre i ch) j 0 ≡ get_or ch j 0
get_or-centre_ne i j ch (inr e) = subst (λ k. get_or (centre k ch) j 0 ≡ get_or ch j 0) (sym e) refl
get_or-centre_ne i j ch (inl n) = elim (Bool-cases (is_off_centre i ch)) [
  | inl e ↦ rw e (get_or-set_ne ch 1500 0 n)
  | inr e ↦ rw e refl
]

-- The deadband leaves the throttle and the channels from the fifth on.
get_or-deadband :
    (ch : List ℕ) (j : ℕ) → (j ≡ 2) ⊎ (3 < j) → get_or (deadband ch 4 0) j 0 ≡ get_or ch j 0
get_or-deadband ch j h =
    get_or-centre_ne 3 j (centre 2 (centre 1 (centre 0 ch))) (ground arith)
    ∙ get_or-centre_ne 2 j (centre 1 (centre 0 ch)) (ground arith)
    ∙ get_or-centre_ne 1 j (centre 0 ch) (ground arith)
    ∙ get_or-centre_ne 0 j ch (ground arith)

length-centre : (i : ℕ) (ch : List ℕ) → length (centre i ch) ≡ length ch
length-centre i ch = elim (Bool-cases (is_off_centre i ch)) [
  | inl e ↦ rw e (length-set ch i 1500)
  | inr e ↦ rw e refl
]

length-deadband : (ch : List ℕ) → length (deadband ch 4 0) ≡ length ch
length-deadband ch =
    length-centre 3 (centre 1 (centre 0 ch)) ∙ length-centre 1 (centre 0 ch) ∙ length-centre 0 ch

judge-armed :
    (trip : Bool) (rc : IbusData) (env : Env) (s : Safety) (sys : SysState)
    → (judge trip rc env s sys).1 ≡ armed
    → sys ≢ armed
    → (trip ≡ false)
      × (sys ≡ standby)
      × (arm_engaged rc s ≡ true)
      × (get_or rc.channels 2 0 < 1100)
      × (env.degraded ≡ false)
      × (has_signal env.now s ≡ true)
unfolding judge arm_engaged arm_preconditions_met State.set
judge-armed trip rc env s sys h n = ground arith

judge-engaged_standby :
    (rc : IbusData) (env : Env) (s : Safety)
    → arm_engaged rc s ≡ true
    → (1100 ≤ get_or rc.channels 2 0) ⊎ (env.degraded ≡ true)
    → (judge false rc env s standby).1 ≡ failsafe
unfolding judge arm_engaged arm_preconditions_met State.set
judge-engaged_standby rc env s h k = ground arith

judge-disarm :
    (rc : IbusData) (env : Env) (s : Safety) (sys : SysState)
    → arm_engaged rc s ≡ false
    → (sys ≡ armed) ⊎ (sys ≡ in_air) ⊎ (sys ≡ failsafe)
    → (judge false rc env s sys).1 ≡ standby
unfolding judge arm_engaged State.set
judge-disarm rc env s sys h k = ground arith

-- What the frame's first lines leave of the safety statics.
engaged-banded :
    (env : Env) (r : Rc) (d : Detector)
    → arm_engaged (banded r) (record (noted env r) { detector = d }) ≡ arm_engaged r.raw r.safety
unfolding arm_engaged note_implausible mark_frame_valid
engaged-banded env r d = ground (arith, get_or-deadband r.raw.channels 4)

-- What the ESC calibration step leaves is the judged state, unless it is STANDBY.
before_esc :
    (env : Env) (r : Rc) (t : SysState)
    → (apply_frame env r).sys ≡ t
    → t ≢ standby
    → (judged env r).1 ≡ t
unfolding apply_frame
before_esc env r t h n =
    ground (arith, rc_step-sys env.now env.fs (judged env r).0 r.esc (judged env r).1)

after_esc :
    (env : Env) (r : Rc) (t : SysState)
    → (judged env r).1 ≡ t
    → t ≢ esc_calib
    → (apply_frame env r).sys ≡ t
unfolding apply_frame
after_esc env r t h n =
    ground (arith, rc_step-sys env.now env.fs (judged env r).0 r.esc (judged env r).1)

-- A frame arms the vehicle only from STANDBY, with the arm request engaged, the throttle below 1100, the
-- estimator healthy, and no throttle failsafe.
pub arming_gate :
    (env : Env) (r : Rc)
    → r.sys ≢ armed
    → (apply_frame env r).sys ≡ armed
    → (r.sys ≡ standby)
      × (arm_engaged r.raw r.safety ≡ true)
      × (get_or r.raw.channels 2 0 < 1100)
      × (env.degraded ≡ false)
      × (trips env r ≡ false)
unfolding apply_frame
arming_gate env r n h =
    let (trip, sys, on, low, ok, _) = judge-armed (trips env r) (banded r) env s r.sys pre n in
    (
      sys,
      sym (engaged-banded env r (detected env r).0) ∙ on,
      subst (λ k. k < 1100) (get_or-deadband r.raw.channels 2 (inl refl)) low,
      ok,
      trip,
    )
  where
    s : Safety
    s = record (noted env r) { detector = (detected env r).0 }

    pre : (judged env r).1 ≡ armed
    pre = before_esc env r armed h (λ e. cc)

-- A tripped throttle failsafe sends on a frame with the throttle at its minimum and the failsafe flag
-- set, and leaves the system in FAILSAFE, whatever the switches say.
pub trip_fails_safe :
    (env : Env) (r : Rc)
    → trips env r ≡ true
    → 2 < length r.raw.channels
    → (get_or (apply_frame env r).raw.channels 2 0 ≡ 1000)
      × ((apply_frame env r).raw.is_failsafe ≡ true)
      × ((apply_frame env r).sys ≡ failsafe)
unfolding apply_frame judge
trip_fails_safe env r t l = (
  ap (λ o. get_or o.channels 2 0) out
      ∙ get_or-set_self (banded r).channels 2 1000 0
          (omega (arith, length-deadband r.raw.channels)),
  ap (λ o. o.is_failsafe) out,
  after_esc env r failsafe (ap (λ b. (judge b (banded r) env s r.sys).1) t ∙ set-failsafe r.sys)
      (λ e. cc),
)
  where
    s : Safety
    s = record (noted env r) { detector = (detected env r).0 }

    out :
        (judged env r).0 ≡ record { channels = set (banded r).channels 2 1000; is_failsafe = true }
    out = ap (λ b. (judge b (banded r) env s r.sys).0) t

-- With the arm request released and no throttle failsafe, a frame takes ARMED, IN_AIR and FAILSAFE to
-- STANDBY: an airborne disarm is always honoured.
disarm_honoured :
    (env : Env) (r : Rc)
    → arm_engaged r.raw r.safety ≡ false
    → trips env r ≡ false
    → (r.sys ≡ armed) ⊎ (r.sys ≡ in_air) ⊎ (r.sys ≡ failsafe)
    → (apply_frame env r).sys ≡ standby
unfolding apply_frame
disarm_honoured env r e t h =
    after_esc env r standby
      (ap (λ b. (judge b (banded r) env s r.sys).1) t
        ∙ judge-disarm (banded r) env s r.sys (engaged-banded env r (detected env r).0 ∙ e) h)
      (λ q. cc)
  where
    s : Safety
    s = record (noted env r) { detector = (detected env r).0 }

-- An arm request that the preconditions refuse fails safe: from STANDBY, with the request engaged and
-- the throttle at 1100 or more or the estimator degraded, a frame with no throttle failsafe leaves
-- the system in FAILSAFE.
pub refused_arm_fails_safe :
    (env : Env) (r : Rc)
    → r.sys ≡ standby
    → arm_engaged r.raw r.safety ≡ true
    → trips env r ≡ false
    → (1100 ≤ get_or r.raw.channels 2 0) ⊎ (env.degraded ≡ true)
    → (apply_frame env r).sys ≡ failsafe
unfolding apply_frame
refused_arm_fails_safe env r st e t h =
    after_esc env r failsafe
      (ap (λ b. (judge b (banded r) env s r.sys).1) t
        ∙ ap (λ q. (judge false (banded r) env s q).1) st
        ∙ judge-engaged_standby (banded r) env s (engaged-banded env r (detected env r).0 ∙ e) (
            subst (λ k. (1100 ≤ k) ⊎ (env.degraded ≡ true))
              (sym (get_or-deadband r.raw.channels 2 (inl refl))) h))
      (λ q. cc)
  where
    s : Safety
    s = record (noted env r) { detector = (detected env r).0 }
