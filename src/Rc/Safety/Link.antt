-- ===== src/Rc/Safety/Link.antt =====
-- The link watchdog of firmware/src/comm/rc_safety.c.
use vayu.Common.{ℕ, ◌+◌, ◌<◌, ◌≤◌, ◌≡◌, ◌↔◌, Bool, true, false, u32, arith}
use vayu.State.{SysState, standby, prearm, armed, in_air, failsafe, esc_calib, set}
use vayu.Rc.Safety.{Safety, has_signal, rc_loss, mark_frame_valid, watchdog_step}

-- The link tests read the true time since the last frame, across the wrap of the 32-bit clock: `d` milliseconds after a frame marked at `t`
-- there is a signal exactly if `d` is at most 1000, and a loss is flagged exactly if `d` is over 100.
pub link_age :
    (t d : ℕ) (s : Safety)
    → t < 4294967296
    → d < 4294967296
    → ((has_signal (u32 (t + d)) (mark_frame_valid t s) ≡ true) ↔ (d ≤ 1000))
      × ((rc_loss (u32 (t + d)) (mark_frame_valid t s) ≡ true) ↔ (100 < d))
unfolding has_signal rc_loss mark_frame_valid
link_age t d s h k =
    ((λ e. ground arith, λ e. ground arith), (λ e. ground arith, λ e. ground arith))

-- The states in which losing the link must stop the vehicle.
abbrev pub is_watched : SysState → Bool
is_watched standby = true
is_watched prearm = true
is_watched armed = true
is_watched in_air = true
is_watched esc_calib = true
is_watched _ = false

-- With the link silent for over a second, one watchdog step takes STANDBY, PREARM, ARMED, IN_AIR
-- and ESC_CALIB to FAILSAFE and leaves every other state; with a signal it changes no state.
pub watchdog_step_lem :
    (t d : ℕ) (s : Safety) (cur : SysState)
    → t < 4294967296
    → d < 4294967296
    → let after = watchdog_step (u32 (t + d)) (mark_frame_valid t s) cur in
      (1000 < d → is_watched cur ≡ true → after ≡ failsafe)
      × (1000 < d → is_watched cur ≡ false → after ≡ cur)
      × (d ≤ 1000 → after ≡ cur)
unfolding watchdog_step mark_frame_valid set
watchdog_step_lem t d s cur h k = (λ p w. ground arith, λ p w. ground arith, λ p. ground arith)
