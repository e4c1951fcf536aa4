-- ===== src/Est/Phase.antt =====
-- firmware/src/est/flight_phase.c and its header, and the step of firmware/src/est/vertical_task.c that
-- hands its events to the system state.
pub mod Takeoff
pub mod Handover
mod Tests
use vayu.Common.{ℕ, Bool, true, false, not, ◌&&◌, ◌||◌, ◌==◌, if◌then◌else◌, List, [], ◌∷◌}
use vayu.Maths.{Float}
use vayu.State.{SysState, armed, in_air, set, code}

-- `flight_phase_event_t`.
pub data Event : Type 0 where
  no_event takeoff land : Event

-- `flight_phase_t`.
pub record Phase (F : Type 0) : Type 0 where
  pub ground_ref : F
  pub have_ref : Bool
  pub agl : F
  pub powered : Bool
  pub tof_ground_ref : F
  pub have_tof_ref : Bool
  pub tof_active : Bool
  pub takeoff_timer : F
  pub land_timer : F

-- The arguments of one update.
pub record Sample (F : Type 0) : Type 0 where
  pub armed : Bool
  pub in_air : Bool
  pub fused_alt : F
  pub baro_alt : F
  pub tof_range : F
  pub tof_valid : Bool
  pub climb_rate : F
  pub throttle : F
  pub dt : F

-- The comparisons of the state in the task.
abbrev pub is_in_air : SysState → Bool
is_in_air st = code st == code in_air

abbrev pub is_armed : SysState → Bool
is_armed st = code st == code armed

module _ {F : Type 0} (fl : Float F) where
  abbrev pub zero_f : F
  zero_f = fl.lit 0 0

  abbrev pub takeoff_alt_m : F
  takeoff_alt_m = fl.lit 4 1

  abbrev pub takeoff_rate_ms : F
  takeoff_rate_ms = fl.lit 3 1

  abbrev pub takeoff_throttle : F
  takeoff_throttle = fl.lit 35 2

  abbrev pub takeoff_debounce_s : F
  takeoff_debounce_s = fl.lit 3 1

  abbrev pub land_alt_m : F
  land_alt_m = fl.lit 25 2

  abbrev pub land_rate_ms : F
  land_rate_ms = fl.lit 3 1

  abbrev pub land_throttle : F
  land_throttle = fl.lit 3 1

  abbrev pub land_debounce_s : F
  land_debounce_s = fl.lit 7 1

  abbrev pub tof_takeoff_alt_m : F
  tof_takeoff_alt_m = fl.lit 15 2

  abbrev pub tof_land_alt_m : F
  tof_land_alt_m = fl.lit 8 2

  -- `flight_phase_init`.
  unfoldable pub init : Phase F
  init = record {
    ground_ref = zero_f;
    have_ref = false;
    agl = zero_f;
    powered = false;
    tof_ground_ref = zero_f;
    have_tof_ref = false;
    tof_active = false;
    takeoff_timer = zero_f;
    land_timer = zero_f;
  }

  -- The branch of `flight_phase_update` that is taken while disarmed.
  unfoldable pub grounded : Sample F → Phase F → Phase F
  grounded x fp =
      let settled = fl.lt (fl.fabs x.climb_rate) land_rate_ms in
      let seed = not fp.have_ref || settled in
      let seed_tof = x.tof_valid && (not fp.have_tof_ref || settled) in
      record {
        ground_ref = if seed then x.baro_alt else fp.ground_ref;
        have_ref = if seed then true else fp.have_ref;
        agl = zero_f;
        powered = false;
        tof_ground_ref = if seed_tof then x.tof_range else fp.tof_ground_ref;
        have_tof_ref = if seed_tof then true else fp.have_tof_ref;
        tof_active = false;
        takeoff_timer = zero_f;
        land_timer = zero_f;
      }

  -- The height above ground, and its source.
  unfoldable pub referenced : Sample F → Phase F → Phase F
  referenced x fp =
      let use_tof = x.tof_valid && fp.have_tof_ref in
      let anchor =
        if fp.tof_active && fp.have_ref then fl.sub x.fused_alt fp.agl else fp.ground_ref in
      if use_tof
      then record fp { agl = fl.sub x.tof_range fp.tof_ground_ref; tof_active = true }
      else record fp {
        ground_ref = anchor;
        agl = if fp.have_ref then fl.sub x.fused_alt anchor else zero_f;
        tof_active = false;
      }

  -- The latch of the throttle.
  unfoldable pub latched : Sample F → Phase F → Phase F
  latched x fp = record fp {
    powered = if fl.lt takeoff_throttle x.throttle then true else fp.powered;
  }

  -- The two gates, after the source of the height was chosen.
  abbrev pub takeoff_gate : Sample F → Phase F → Bool
  takeoff_gate x fp =
      fl.lt (if fp.tof_active then tof_takeoff_alt_m else takeoff_alt_m) fp.agl
      && fl.lt takeoff_rate_ms x.climb_rate
      && fp.powered

  abbrev pub land_gate : Sample F → Phase F → Bool
  land_gate x fp =
      fl.lt fp.agl (if fp.tof_active then tof_land_alt_m else land_alt_m)
      && fl.lt (fl.fabs x.climb_rate) land_rate_ms
      && fl.lt x.throttle land_throttle

  -- The branch that is taken on the ground, armed.
  unfoldable pub await_takeoff : Sample F → Phase F → Event × Phase F
  await_takeoff x fp =
      let timer = fl.add fp.takeoff_timer x.dt in
      if not (takeoff_gate x fp)
      then (no_event, record fp { takeoff_timer = zero_f; land_timer = zero_f })
      else if fl.le takeoff_debounce_s timer
      then (takeoff, record fp { takeoff_timer = zero_f; land_timer = zero_f })
      else (no_event, record fp { takeoff_timer = timer; land_timer = zero_f })

  -- The branch that is taken in the air.
  unfoldable pub await_land : Sample F → Phase F → Event × Phase F
  await_land x fp =
      let timer = fl.add fp.land_timer x.dt in
      if not (land_gate x fp)
      then (no_event, record fp { takeoff_timer = zero_f; land_timer = zero_f })
      else if fl.le land_debounce_s timer
      then (land, record fp { takeoff_timer = zero_f; land_timer = zero_f })
      else (no_event, record fp { takeoff_timer = zero_f; land_timer = timer })

  -- `flight_phase_update`.
  unfoldable pub update : Sample F → Phase F → Event × Phase F
  update x fp =
      let f = latched x (referenced x fp) in
      if not x.armed
      then (no_event, grounded x fp)
      else if fl.le x.dt zero_f
      then (no_event, f)
      else if not x.in_air
      then await_takeoff x f
      else await_land x f

  -- The samples of a flight in order, with the events that they give.
  unfoldable pub run : List (Sample F) → Phase F → List Event × Phase F
  run [] fp = ([], fp)
  run (x ∷ xs) fp = let (e, f) = update x fp in let (es, g) = run xs f in (e ∷ es, g)

  -- What the task passes for a state that it has read.
  abbrev pub sample_in : SysState → Sample F → Sample F
  sample_in st x = record x { armed = is_armed st || is_in_air st; in_air = is_in_air st }

-- The request that an event makes, on the state that `system_state_set` reads.
unfoldable pub hand_over : Event → SysState → SysState
hand_over no_event cur = cur
hand_over takeoff cur = (set cur in_air).state
hand_over land cur = (set cur armed).state
