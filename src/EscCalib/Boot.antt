-- ===== src/EscCalib/Boot.antt =====
-- The boot entry of firmware/src/actuator/esc_calib.c.
use vayu.Common.{ℕ, ◌≡◌, ◌⊎◌, true, false, arith}
use vayu.State.{SysState, init, standby, esc_calib, set}
use vayu.EscCalib.{Esc, Marker, boot_init, output_is_max, store_magic}

-- Boot turns the maximum on only for a stored request, from INIT, STANDBY or ESC_CALIB, and has then
-- overwritten the request and entered ESC_CALIB.
max_from_boot :
    (now : ℕ) (m : Marker) (s : Esc) (sys : SysState)
    → output_is_max s ≡ false
    → output_is_max (boot_init now m s sys).esc ≡ true
    → (m.opens ≡ true)
      × (m.word ≡ store_magic)
      × ((boot_init now m s sys).cleared ≡ true)
      × ((boot_init now m s sys).sys ≡ esc_calib)
      × ((sys ≡ init) ⊎ (sys ≡ standby) ⊎ (sys ≡ esc_calib))
      × ((boot_init now m s sys).esc.phase_ms ≡ now)
unfolding boot_init output_is_max set
max_from_boot now m s sys h e = ground arith
