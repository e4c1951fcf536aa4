-- ===== src/Boot.antt =====
-- firmware/src/sys/boot.c: the boot task, and the part of `system_boot_late_init` in
-- firmware/src/main.c that touches the system state. No other task changes the state while it runs.
-- The measured clock is an argument. The log of the checks keeps the value it ends with.
pub mod Result
mod Tests
use vayu.Common.{ℕ, Bool, true, false, ◌&&◌, List, [], ◌∷◌, ◌==◌, if◌then◌else◌}
use vayu.State.{SysState, init, standby, failsafe, esc_calib, code, set}
use vayu.EscCalib.{Esc, Marker, boot_init}

-- `sys_boot_check_state_t`; a status is the list of the bits that are set in it.
pub data BootCheck : Type 0 where
  no_check startup_pass startup_fail clock_pass clock_fail sd_pass sd_fail : BootCheck

-- The bits that the enumerators stand for.
abbrev pub bit : BootCheck → ℕ
bit no_check = 0x1
bit startup_pass = 0x2
bit startup_fail = 0x4
bit clock_pass = 0x8
bit clock_fail = 0x10
bit sd_pass = 0x20
bit sd_fail = 0x40

abbrev pub has : BootCheck → List BootCheck → Bool
has b [] = false
has b (c ∷ cs) = if bit b == bit c then true else has b cs

-- The test of `required_passes`.
abbrev pub all_passed : List BootCheck → Bool
all_passed cs = has startup_pass cs && has clock_pass cs && has sd_pass cs

abbrev pub sys_clock_freq : ℕ
sys_clock_freq = 84000000

-- The bits that the task gathers in `boot_status`, on the clock that the hardware layer measures.
unfoldable pub gather : ℕ → List BootCheck
gather sysclk =
    sd_pass ∷ (if sysclk == sys_clock_freq then clock_pass else clock_fail) ∷ startup_pass ∷ []

-- The reset to INIT, which a calibration that is already running is spared.
unfoldable pub enter : SysState → SysState
enter sys = if code sys == code esc_calib then sys else (set sys init).state

-- The evaluation at the end, which reads the state again.
unfoldable pub conclude : List BootCheck → SysState → SysState
conclude status sys =
    if all_passed status
    then if code sys == code esc_calib then sys else (set sys standby).state
    else (set sys failsafe).state

-- What the task leaves behind: what the late initialisation made, the checks and the state.
pub record Booted (A : Type 0) : Type 0 where
  pub made : A
  pub status : List BootCheck
  pub sys : SysState

-- `boot_task`, with the `system_boot_late_init` of the image.
unfoldable pub task : {A : Type 0} → ℕ → (SysState → A × SysState) → SysState → Booted A
unfolding gather enter conclude
task sysclk late sys =
    let (made, sys') = late (enter sys) in
    record { made = made; status = gather sysclk; sys = conclude (gather sysclk) sys' }

-- `system_boot_late_init` of the flight image: of what it calls, `esc_calib_boot_init` alone uses the
-- system state.
unfoldable pub flight_late : ℕ → Marker → Esc → SysState → Esc × SysState
flight_late now m s sys = ((boot_init now m s sys).esc, (boot_init now m s sys).sys)
