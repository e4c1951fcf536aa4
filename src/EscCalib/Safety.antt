-- ===== src/EscCalib/Safety.antt =====
-- When the motors may be driven by firmware/src/actuator/esc_calib.c.
use vayu.Common.{ℕ, ◌<◌, ◌≡◌, ◌≢◌, ◌⊎◌, true, false, sub32, arith}
use vayu.Ibus.{IbusData}
use vayu.State.{SysState, standby, esc_calib, set}
use vayu.EscCalib.{Esc, Fs, off, high, rc_step, output_is_max, active}

-- What holds of the statics between two frames.
pub record IsValid (s : Esc) : Type 0 where
  pub waits_off : s.awaiting_commit ≡ true → (s.phase ≡ off) × (s.holding_enter ≡ false)
  pub enter_off : s.holding_enter ≡ true → s.phase ≡ off
  pub close_high : s.holding_close ≡ true → s.phase ≡ high

-- Every frame keeps the invariant: a write is awaited and the entry gesture timed only while no
-- calibration runs, and the closing gesture only while the maximum is driven.
pub rc_step-IsValid :
    (now : ℕ) (fs : Fs) (rc : IbusData) (s : Esc) (sys : SysState)
    → IsValid s
    → IsValid (rc_step now fs rc s sys).esc
unfolding rc_step
rc_step-IsValid now fs rc s sys v = ground arith

-- No RC frame turns the maximum on: if the motors are given the maximum after a frame, they were
-- before it, the frame is no failsafe frame, the system is in ESC_CALIB before and after, and the phase
-- has lasted less than 60 seconds.
pub max_only_kept :
    (now : ℕ) (fs : Fs) (rc : IbusData) (s : Esc) (sys : SysState)
    → IsValid s
    → output_is_max (rc_step now fs rc s sys).esc ≡ true
    → (output_is_max s ≡ true)
      × (rc.is_failsafe ≡ false)
      × (sys ≡ esc_calib)
      × ((rc_step now fs rc s sys).sys ≡ esc_calib)
      × (sub32 now s.phase_ms < 60000)
      × ((rc_step now fs rc s sys).esc.phase_ms ≡ s.phase_ms)
unfolding rc_step output_is_max
max_only_kept now fs rc s sys v h = ground arith

-- A calibration that ends leaves ESC_CALIB: if one runs before a frame and none after it, the system is
-- not in ESC_CALIB afterwards; and a frame that finds the system outside ESC_CALIB ends it.
pub ends_with_state :
    (now : ℕ) (fs : Fs) (rc : IbusData) (s : Esc) (sys : SysState)
    → IsValid s
    → active s ≡ true
    → (active (rc_step now fs rc s sys).esc ≡ false → (rc_step now fs rc s sys).sys ≢ esc_calib)
      × (sys ≢ esc_calib → active (rc_step now fs rc s sys).esc ≡ false)
unfolding rc_step active set
ends_with_state now fs rc s sys v h = (λ e. ground arith, λ e. ground arith)

-- A frame changes the system state only from ESC_CALIB to STANDBY.
pub rc_step-sys :
    (now : ℕ) (fs : Fs) (rc : IbusData) (s : Esc) (sys : SysState)
    → ((rc_step now fs rc s sys).sys ≡ sys)
      ⊎ (sys ≡ esc_calib) × ((rc_step now fs rc s sys).sys ≡ standby)
unfolding rc_step set
rc_step-sys now fs rc s sys = ground arith
