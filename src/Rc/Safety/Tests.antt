-- ===== src/Rc/Safety/Tests.antt =====
-- Tests and instances for the RC safety policy.
use vayu.Common.{ℕ, ◌≤◌, ◌≡◌, ◌↔◌, true, false, List, [], ◌∷◌, ◌++◌, length, arith}
use vayu.Rc.Safety.{Safety, reset_detector, failsafe_step}
use vayu.Rc.Safety.Failsafe.{feed, trips_iff_held, low_frame_clears}

abbrev boot : Safety
boot = record {
  last_valid_frame_ms = 0;
  detector = reset_detector;
  implausible_frames = 0;
  sw_arm_request = 0;
}

abbrev ramp : List ℕ
ramp = 1200 ∷ 1450 ∷ 1700 ∷ 1950 ∷ 2000 ∷ 2000 ∷ 2000 ∷ 2000 ∷ 2000 ∷ []

trips_iff_held_example :
    ((feed (reset_detector, false) ((1100 ∷ []) ++ (1950 ∷ 1951 ∷ 1952 ∷ 1950 ∷ []))).1 ≡ true)
    ↔ (3 ≤ length {A = ℕ} (1951 ∷ 1952 ∷ 1950 ∷ []))
trips_iff_held_example =
    trips_iff_held (1100 ∷ []) 1950 (1951 ∷ 1952 ∷ 1950 ∷ []) (omega arith) (omega arith)
      (omega arith) (omega arith) (omega arith)

low_frame_clears_example :
    failsafe_step (record { prev_throttle = 1950; high_frames = 4; latched = true }) 1000
    ≡ (record { prev_throttle = 1000; high_frames = 0; latched = false }, false)
low_frame_clears_example =
    low_frame_clears (record { prev_throttle = 1950; high_frames = 4; latched = true }) 1000
      (omega arith)
