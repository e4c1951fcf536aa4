-- ===== src/Boot/Tests.antt =====
-- Tests and instances for the boot task.
use vayu.Common.{◌≡◌, ◌⊎◌, ◌≢◌, true, false, refl, inr, [], ◌∷◌}
use vayu.State.{init, standby, failsafe, esc_calib}
use vayu.EscCalib.{Marker, cold, output_is_max, request_take, store_magic}
use vayu.Boot.{sd_pass, clock_fail, startup_pass, sys_clock_freq, gather, task, flight_late}
use vayu.Boot.Result.{boot_result}

abbrev request : Marker
request = record { opens = true; count = 4; word = store_magic }

-- A clock that runs slow is recorded, and wins over the stored request.
slow_clock :
    (task 16000000 (flight_late 5 request cold) init).status
    ≡ sd_pass ∷ clock_fail ∷ startup_pass ∷ []
unfolding task gather
slow_clock = refl

boot_result_example :
    let b = task sys_clock_freq (flight_late 5 request cold) init in
    (sys_clock_freq ≡ sys_clock_freq
      → (request_take request ≡ true) × (b.sys ≡ esc_calib) × (output_is_max b.made ≡ true)
        ⊎ (request_take request ≡ false) × (b.sys ≡ standby) × (output_is_max b.made ≡ false))
    × (sys_clock_freq ≢ sys_clock_freq → b.sys ≡ failsafe)
unfolding output_is_max
boot_result_example = boot_result sys_clock_freq 5 request cold init (inr refl) refl
