-- ===== src/Router.antt =====
-- firmware/src/comm/navlink_router.c, its adapters of the commands, and the command branch of
-- comm_processor_dispatch in firmware/src/comm/comm_processor.c, which they reuse. The generated codec
-- is outside: a message is its fields. The IMU's driver, the mixer and the byte forms of a float are
-- parameters. A payload is the list of its bytes, and what is past its end is 0.
pub mod Calibrate
pub mod SetPid
pub mod ArmAnswer
mod Tests
use vayu.Common.{
  ℕ, ◌+◌, ◌*◌, ◌/◌, ◌%◌, Bool, true, false, not, ◌&&◌, Option, none, some, List, [], ◌∷◌, ◌++◌,
  length, ltb, leb, ◌==◌, get_or, if◌then◌else◌, ℤ, u8, u32, sub32,
}
use vayu.Maths.{Float}
use vayu.State.{SysState, Status, ok, err_invalid, code, standby, armed, failsafe, calibrating, set}
use vayu.PidConfig.{PidGains, Tune}
use vayu.PidConfig.Commands.{apply_command, apply_gyro_lpf_command, apply_d_lpf_command}
use vayu.Control.Sysid.{Sysid, Request, start, abort, dump_request}

-- The results of a command that the router sends; `none` in their place is an answer that is deferred.
pub data Result : Type 0 where
  accepted failed temporarily_rejected : Result

-- `s_arm_ack_pending`, `s_arm_ack_req_seq` and `s_arm_ack_deadline`.
pub record ArmAck : Type 0 where
  pub pending : Bool
  pub req_seq : ℕ
  pub deadline : ℕ

abbrev pub arm_ack_timeout_ms : ℕ
arm_ack_timeout_ms = 800

-- What the router reaches; `rest` is the world of the IMU's driver.
pub record World (F : Type 0) (W : Type 0) : Type 0 where
  pub sys : SysState
  pub sw_arm_request : Bool
  pub tune : Tune F
  pub sysid : Sysid F
  pub arm_ack : ArmAck
  pub rest : W

-- The IMU's operations, each with the null pointer as `none`, and a float as four bytes.
pub record Board (F : Type 0) (W : Type 0) : Type 0 where
  pub calibrate_start : Option (ℕ → ℕ → W → W)
  pub calibrating : Option (W → Bool)
  pub calibrate_cancel : Option (W → W)
  pub write_f : F → List ℕ
  pub read_f : List ℕ → F
  pub trunc : F → ℤ
  pub as_float : ℕ → F

abbrev pub cmd_calibrate_imu : ℕ
cmd_calibrate_imu = 0x0001

abbrev pub cmd_arm : ℕ
cmd_arm = 0x0002

abbrev pub cmd_disarm : ℕ
cmd_disarm = 0x0003

abbrev pub cmd_cancel_calibration : ℕ
cmd_cancel_calibration = 0x0009

abbrev pub cmd_set_pid : ℕ
cmd_set_pid = 0x000A

abbrev pub cmd_set_gyro_lpf : ℕ
cmd_set_gyro_lpf = 0x000B

abbrev pub cmd_set_d_lpf : ℕ
cmd_set_d_lpf = 0x000E

-- `command_payload_valid`.
abbrev pub command_payload_valid : ℕ → ℕ → ℕ → Bool
command_payload_valid len argc expected_argc =
    if ltb argc expected_argc then false else leb (argc * 4 + 3) len

-- The `uint32_t` in four bytes.
abbrev pub word : List ℕ → ℕ → ℕ
word p i =
    get_or p i 0
    + get_or p (i + 1) 0 * 256
    + get_or p (i + 2) 0 * 65536
    + get_or p (i + 3) 0 * 16777216

module _ {F W : Type 0} (fl : Float F) (board : Board F W) where
  -- The bytes of some floats.
  abbrev pub arg_bytes : List F → List ℕ
  arg_bytes [] = []
  arg_bytes (x ∷ xs) = board.write_f x ++ arg_bytes xs

  -- `build_cmd`, with what it writes and its length.
  abbrev pub build_cmd : ℕ → List F → List ℕ × ℕ
  build_cmd cmd_id args = (
    cmd_id % 256 ∷ cmd_id / 256 % 256 ∷ u8 (length args) ∷ arg_bytes args,
    u8 (3 + length args * 4),
  )

  -- `CMD_CALIBRATE_IMU` in `comm_processor_dispatch`.
  unfoldable pub start_calibration : List ℕ → ℕ → ℕ → World F W → World F W
  start_calibration p len argc w =
      if not (code w.sys == code calibrating) && command_payload_valid len argc 2
      then elim board.calibrate_start [
        | none ↦ w
        | some run ↦ record w { rest = run (word p 3) (word p 7) w.rest }
      ]
      else w

  abbrev pub imu_busy : W → Bool
  imu_busy r = elim board.calibrating [ none ↦ false | some busy ↦ busy r ]

  -- The cancellation there.
  unfoldable pub cancel_calibration : World F W → World F W
  cancel_calibration w =
      if imu_busy w.rest
      then elim board.calibrate_cancel [ none ↦ w | some stop ↦ record w { rest = stop w.rest } ]
      else record w { sys = (set w.sys standby).state }

  -- The command branch of `comm_processor_dispatch`, less its branches for the mixer's geometry and the
  -- flight mode, which no adapter sends there.
  unfoldable pub dispatch_command : List ℕ → ℕ → World F W → World F W
  dispatch_command p len w =
      let cmd_id = get_or p 0 0 + get_or p 1 0 * 256 in
      let argc = if leb 3 len then get_or p 2 0 else 0 in
      if ltb len 2
      then w
      else if cmd_id == cmd_calibrate_imu
      then start_calibration p len argc w
      else if cmd_id == cmd_cancel_calibration
      then cancel_calibration w
      else if cmd_id == cmd_arm
      then record w { sw_arm_request = true }
      else if cmd_id == cmd_disarm
      then record w { sw_arm_request = false }
      else if cmd_id == cmd_set_pid
      then record w { tune = (apply_command fl board.read_f board.trunc (some p) len w.tune).1 }
      else if cmd_id == cmd_set_gyro_lpf
      then record w {
        tune = (apply_gyro_lpf_command fl board.read_f board.trunc (some p) len w.tune).1;
      }
      else w

  -- `on_cmd_calibrate_imu`.
  unfoldable pub on_cmd_calibrate_imu : ℕ → World F W → Option Result × World F W
  on_cmd_calibrate_imu which w =
      if which == 0xFF
      then (some accepted, dispatch_command (0x09 ∷ 0x00 ∷ []) 2 w)
      else if not (code w.sys == code standby) && not (code w.sys == code failsafe)
      then (some temporarily_rejected, w)
      else let imu = which / 16 % 16 in
        let typ = which % 16 in
        let cmd = build_cmd cmd_calibrate_imu (board.as_float imu ∷ board.as_float typ ∷ []) in
        (some accepted, dispatch_command cmd.0 cmd.1 w)

  -- `on_cmd_arm`, at a time.
  unfoldable pub on_cmd_arm : ℕ → ℕ → World F W → Option Result × World F W
  on_cmd_arm now req_seq w = (
    none,
    record (dispatch_command (0x02 ∷ 0x00 ∷ []) 2 w) {
      arm_ack = record {
        pending = true;
        req_seq = req_seq;
        deadline = u32 (now + arm_ack_timeout_ms);
      };
    },
  )

  -- `on_cmd_disarm`.
  unfoldable pub on_cmd_disarm : World F W → Option Result × World F W
  on_cmd_disarm w = (some accepted, dispatch_command (0x03 ∷ 0x00 ∷ []) 2 w)

  abbrev pub result_of : Status → Result
  result_of ok = accepted
  result_of err_invalid = failed

  -- `on_cmd_set_pid`.
  unfoldable pub on_cmd_set_pid : ℕ → ℕ → PidGains F → World F W → Option Result × World F W
  on_cmd_set_pid controller axis g w =
      let cmd =
        build_cmd cmd_set_pid
          (board.as_float controller ∷ board.as_float axis ∷ g.kp ∷ g.ki ∷ g.kd ∷ g.kff ∷ []) in
      let r = apply_command fl board.read_f board.trunc (some cmd.0) cmd.1 w.tune in
      (some (result_of r.0), record w { tune = r.1 })

  -- `on_cmd_set_gyro_lpf`.
  unfoldable pub on_cmd_set_gyro_lpf : ℕ → F → World F W → Option Result × World F W
  on_cmd_set_gyro_lpf axis rc w =
      let cmd = build_cmd cmd_set_gyro_lpf (board.as_float axis ∷ rc ∷ []) in
      let r = apply_gyro_lpf_command fl board.read_f board.trunc (some cmd.0) cmd.1 w.tune in
      (some (result_of r.0), record w { tune = r.1 })

  -- `on_cmd_set_d_lpf`.
  unfoldable pub on_cmd_set_d_lpf : ℕ → F → World F W → Option Result × World F W
  on_cmd_set_d_lpf axis rc w =
      let cmd = build_cmd cmd_set_d_lpf (board.as_float axis ∷ rc ∷ []) in
      let r = apply_d_lpf_command fl board.read_f board.trunc (some cmd.0) cmd.1 w.tune in
      (some (result_of r.0), record w { tune = r.1 })

  -- `on_cmd_sysid_excite`, with what the allocator answers.
  unfoldable pub on_cmd_sysid_excite : Bool → Request F → World F W → Option Result × World F W
  on_cmd_sysid_excite malloc_ok m w =
      if m.axis == 0xFF
      then (some accepted, record w { sysid = abort w.sysid })
      else if ltb 2 m.axis
      then (some failed, w)
      else let r = start fl malloc_ok m w.sysid in
        (some (if r.0 then accepted else failed), record w { sysid = r.1 })

  -- `on_cmd_sysid_dump`.
  unfoldable pub on_cmd_sysid_dump : World F W → Option Result × World F W
  on_cmd_sysid_dump w = (some accepted, record w { sysid = dump_request w.sysid })

-- `arm_ack_service`: the answers that are sent, with their sequence numbers.
unfoldable pub arm_ack_service : {F W : Type 0} → ℕ → World F W → List (ℕ × Result) × World F W
arm_ack_service now w =
    let done = record w { arm_ack = record w.arm_ack { pending = false } } in
    if not w.arm_ack.pending
    then ([], w)
    else if code w.sys == code armed
    then ((w.arm_ack.req_seq, accepted) ∷ [], done)
    else if ltb (sub32 now w.arm_ack.deadline) 2147483648
    then ((w.arm_ack.req_seq, temporarily_rejected) ∷ [], done)
    else ([], w)
