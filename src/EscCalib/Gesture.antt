-- ===== src/EscCalib/Gesture.antt =====
-- How firmware/src/actuator/esc_calib.c comes to write a calibration request: over whole sequences of
-- RC frames, newest first.
use mathlib.Core.Path.{subst}
use vayu.Common.{
  sym, ℕ, ◌≤◌, ◌≡◌, ◌⊎◌, inl, inr, true, false, List, [], ◌∷◌, sub32, arith, some, ◌≢◌,
}
use vayu.Ibus.{IbusData}
use vayu.State.{SysState, standby}
use vayu.EscCalib.{Esc, Fs, Stepped, rc_step, gesture_enter, cold, on_card}
use vayu.EscCalib.Safety.{IsValid, rc_step-IsValid}

-- One frame, with all that the step reads besides its own state.
pub record Tick : Type 0 where
  pub now : ℕ
  pub fs : Fs
  pub rc : IbusData
  pub sys : SysState

abbrev pub step : Tick → Esc → Stepped
step f s = rc_step f.now f.fs f.rc s f.sys

-- The statics after the frames of the list, newest first, from a cold start.
unfoldable pub run : List Tick → Esc
run [] = cold
run (f ∷ h) = (step f (run h)).esc

-- A good frame in STANDBY that shows the entry gesture.
abbrev pub IsEntry : Tick → Type 0
IsEntry f = (gesture_enter f.rc ≡ true) × (f.sys ≡ standby) × (f.rc.is_failsafe ≡ false)

-- The newest frames, back to one at tick `t`, all show the entry gesture.
abbrev pub HeldSince : ℕ → List Tick → Type 0
HeldSince t [] = ⊥
HeldSince t (f ∷ h) = IsEntry f × ((f.now ≡ t) ⊎ HeldSince t h)

run-IsValid : (h : List Tick) → IsValid (run h)
unfolding run
run-IsValid [] = ground arith
run-IsValid (f ∷ h) = rc_step-IsValid f.now f.fs f.rc (run h) f.sys (run-IsValid h)

step-holding :
    (f : Tick) (s : Esc)
    → IsValid s
    → (step f s).esc.holding_enter ≡ true
    → IsEntry f
      × (((step f s).esc.gesture_ms ≡ f.now)
          ⊎ (s.holding_enter ≡ true) × ((step f s).esc.gesture_ms ≡ s.gesture_ms))
unfolding rc_step
step-holding f s v h = ground arith

step-requested :
    (f : Tick) (s : Esc)
    → (step f s).requested ≡ true
    → IsEntry f × (s.holding_enter ≡ true) × (1500 ≤ sub32 f.now s.gesture_ms)
unfolding rc_step
step-requested f s h = ground arith

run-HeldSince : (h : List Tick) → (run h).holding_enter ≡ true → HeldSince (run h).gesture_ms h
unfolding run
run-HeldSince [] e = ground arith
run-HeldSince (f ∷ h) e =
    let (entry, why) = step-holding f (run h) (run-IsValid h) e in
    (
      entry,
      elim why [
        | inl p ↦ inl (sym p)
        | inr (w, g) ↦ inr (subst (λ t. HeldSince t h) (sym g) (run-HeldSince h w))
      ],
    )

-- A calibration request is written only on a gesture held: the frame that writes it and the frames
-- before it, back to one at least 1500 ms older, are all good frames that show the entry gesture
-- in STANDBY.
request_needs_hold :
    (f : Tick) (h : List Tick)
    → (step f (run h)).requested ≡ true
    → (t : ℕ) × HeldSince t (f ∷ h) × (1500 ≤ sub32 f.now t)
request_needs_hold f h e =
    let (entry, held, long) = step-requested f (run h) e in
    ((run h).gesture_ms, (entry, inr (run-HeldSince h held)), long)

-- The operator is told that the request is stored only when it is: a frame sets `request_written` only
-- while a write is awaited, the write lane reports no failure, and its commit count has moved
-- since the request was queued.
pub written_needs_commit :
    (f : Tick) (s : Esc)
    → s.request_written ≡ false
    → (step f s).esc.request_written ≡ true
    → (s.awaiting_commit ≡ true)
      × (f.fs.failed ≡ false)
      × (f.fs.committed ≢ s.commit_mark)
      × ((step f s).esc.pending_msg ≡ some on_card)
unfolding rc_step
written_needs_commit f s w h = ground arith
