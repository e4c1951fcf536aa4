-- ===== src/Boot/Result.antt =====
-- What a boot ends in: the boot task composed with ESC calibration and the transition table.
use vayu.Common.{ℕ, ◌≡◌, ◌⊎◌, ◌≢◌, true, false, arith}
use vayu.State.{SysState, uninitialized, init, standby, failsafe, esc_calib, set}
use vayu.EscCalib.{Esc, Marker, boot_init, request_take, output_is_max}
use vayu.Boot.{sys_clock_freq, gather, enter, conclude, task, flight_late}

-- A boot of the flight image, with the maximum off, from UNINITIALIZED or INIT. With the right clock
-- it ends in ESC_CALIB with the maximum on if a calibration is stored, and in STANDBY with the
-- maximum off if not. With any other clock it ends in FAILSAFE, a stored calibration or not.
pub boot_result :
    (sysclk now : ℕ) (m : Marker) (s : Esc) (sys : SysState)
    → (sys ≡ uninitialized) ⊎ (sys ≡ init)
    → output_is_max s ≡ false
    → let b = task sysclk (flight_late now m s) sys in
      (sysclk ≡ sys_clock_freq
        → (request_take m ≡ true) × (b.sys ≡ esc_calib) × (output_is_max b.made ≡ true)
          ⊎ (request_take m ≡ false) × (b.sys ≡ standby) × (output_is_max b.made ≡ false))
      × (sysclk ≢ sys_clock_freq → b.sys ≡ failsafe)
unfolding task gather enter conclude flight_late boot_init request_take output_is_max set
boot_result sysclk now m s sys from h = (λ e. ground arith, λ n. ground arith)
