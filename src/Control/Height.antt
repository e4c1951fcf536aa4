-- ===== src/Control/Height.antt =====
-- firmware/src/control/height_controller.c and its header: the collective in height mode.
pub mod Ceiling
mod Tests
use vayu.Common.{ℕ, Bool, true, false, not, ◌&&◌, ◌||◌, if◌then◌else◌}
use vayu.Maths.{Float}

-- `height_mode_t`.
pub data Mode : Type 0 where
  off hold land : Mode

abbrev pub is_off : Mode → Bool
is_off off = true
is_off hold = false
is_off land = false

abbrev pub is_hold : Mode → Bool
is_hold hold = true
is_hold off = false
is_hold land = false

abbrev pub is_land : Mode → Bool
is_land land = true
is_land off = false
is_land hold = false

abbrev pub same : Bool → Bool → Bool
same true b = b
same false b = not b

-- `height_ctrl_t`.
pub record Height (F : Type 0) : Type 0 where
  pub engaged : Bool
  pub src_is_tof : Bool
  pub landed : Bool
  pub lifting_off : Bool
  pub failed : Bool
  pub runaway_t : F
  pub handback : Bool
  pub handback_thr : F
  pub last_out : F
  pub alt_sp : F
  pub base : F
  pub i : F

-- The arguments of a step, the mode apart.
pub record Input (F : Type 0) : Type 0 where
  pub in_air : Bool
  pub stick : F
  pub alt_m : F
  pub alt_is_tof : Bool
  pub climb_rate : F
  pub dt : F
  pub hover_ref : F

module _ {F : Type 0} (fl : Float F) where
  abbrev pub zero_h : F
  zero_h = fl.lit 0 0

  abbrev pub thr_min : F
  thr_min = fl.lit 25 2

  abbrev pub thr_max : F
  thr_max = fl.lit 85 2

  abbrev pub idle_throttle : F
  idle_throttle = fl.lit 0 0

  abbrev pub base_min : F
  base_min = fl.lit 3 1

  abbrev pub base_max : F
  base_max = fl.lit 75 2

  abbrev pub i_bound : F
  i_bound = fl.lit 25 2

  -- `clampf` of this file.
  abbrev pub bounded : F → F → F → F
  bounded v lo hi = if fl.lt v lo then lo else if fl.lt hi v then hi else v

  -- `height_ctrl_reset`.
  unfoldable pub reset : Height F → Height F
  reset h = record {
    engaged = false;
    src_is_tof = false;
    landed = false;
    lifting_off = false;
    failed = false;
    runaway_t = zero_h;
    handback = false;
    handback_thr = zero_h;
    last_out = zero_h;
    alt_sp = zero_h;
    base = zero_h;
    i = zero_h;
  }

  -- The last command, or the baseline where the command is above it.
  abbrev pub safe_collective : Height F → F
  safe_collective h = if fl.lt h.base h.last_out then h.base else h.last_out

  -- `handback_arm`.
  unfoldable pub handback_arm : Height F → Height F
  handback_arm h = record h { handback = true; handback_thr = safe_collective h }

  -- `handback_step`: the collective and the controller.
  unfoldable pub handback_step : Input F → Height F → F × Height F
  handback_step x h =
      if not h.handback
      then (x.stick, h)
      else if not x.in_air || fl.le h.handback_thr x.stick
      then (x.stick, record h { handback = false })
      else (h.handback_thr, h)

  -- `climb_rate_pi`.
  unfoldable pub climb_rate_pi : F → Input F → Height F → F × Height F
  climb_rate_pi climb_sp x h =
      let err = fl.sub climb_sp x.climb_rate in
      let i =
        if fl.lt zero_h x.dt
        then bounded (fl.add h.i (fl.mul (fl.mul (fl.lit 1 1) err) x.dt)) (fl.neg i_bound) i_bound
        else h.i in
      let out = fl.add (fl.add h.base (fl.mul (fl.lit 12 2) err)) i in
      if fl.lt thr_max out
      then (
        thr_max,
        record h { i = bounded (fl.sub i (fl.sub out thr_max)) (fl.neg i_bound) i_bound },
      )
      else if fl.lt out thr_min
      then (
        thr_min,
        record h { i = bounded (fl.sub i (fl.sub out thr_min)) (fl.neg i_bound) i_bound },
      )
      else (out, record h { i = i })

  -- The check of the hover reference.
  abbrev pub hover_of : F → F
  hover_of r = if not (fl.lt base_min r) || not (fl.lt r base_max) then fl.lit 38 2 else r

  -- The step with the switch centred.
  unfoldable pub disengage : Input F → Height F → F × Height F
  unfolding handback_step
  disengage x h =
      let dropped = record h {
        engaged = false;
        src_is_tof = false;
        landed = false;
        failed = false;
        alt_sp = zero_h;
        base = zero_h;
        i = zero_h;
        runaway_t = zero_h;
      } in
      handback_step x (
        if h.engaged && x.in_air
        then record dropped { handback = true; handback_thr = safe_collective h }
        else dropped)

  -- What a first step captures, in flight or on the ground.
  unfoldable pub engage : Input F → Height F → Height F
  engage x h =
      let taken = record h {
        engaged = true;
        src_is_tof = x.alt_is_tof;
        i = zero_h;
        landed = false;
        runaway_t = zero_h;
      } in
      if h.engaged
      then h
      else if x.in_air
      then record taken {
        lifting_off = false;
        alt_sp = x.alt_m;
        base = bounded x.stick base_min base_max;
      }
      else record taken { alt_sp = fl.lit 1 0; base = hover_of x.hover_ref; lifting_off = true }

  -- The end of a lift-off.
  unfoldable pub lift_over : Input F → Height F → Height F
  lift_over x h =
      if h.lifting_off && fl.le h.alt_sp x.alt_m then record h { lifting_off = false } else h

  -- The hand-off between the two sources of the height.
  unfoldable pub hand_off : Mode → Input F → Height F → Height F
  hand_off mode x h =
      if same x.alt_is_tof h.src_is_tof
      then h
      else if is_hold mode && not h.lifting_off
      then record h { src_is_tof = x.alt_is_tof; alt_sp = x.alt_m }
      else record h { src_is_tof = x.alt_is_tof }

  -- A step's command is kept as the last one.
  abbrev pub kept : F × Height F → F × Height F
  kept r = (r.0, record r.1 { last_out = r.0 })

  -- LAND and HOLD.
  unfoldable pub drive : Mode → Input F → Height F → F × Height F
  unfolding climb_rate_pi
  drive mode x h =
      if is_land mode
      then if h.landed || (fl.le x.alt_m (fl.lit 12 2) || not x.in_air)
        then (idle_throttle, record h { landed = true; i = zero_h; last_out = idle_throttle })
        else kept (climb_rate_pi (fl.neg (fl.lit 3 1)) x h)
      else kept (
          climb_rate_pi
            (bounded (fl.mul (fl.lit 1 0) (fl.sub h.alt_sp x.alt_m)) (fl.neg (fl.lit 6 1))
              (fl.lit 6 1))
            x h)

  -- The exit of the runaway guard.
  unfoldable pub give_up : Input F → Height F → F × Height F
  unfolding handback_arm handback_step
  give_up x h =
      handback_step x (handback_arm (record h { failed = true; engaged = false; i = zero_h }))

  -- One step more outside the band.
  abbrev pub timed : Input F → Height F → Height F
  timed x h = record h {
    runaway_t = fl.add h.runaway_t (if fl.lt zero_h x.dt then x.dt else zero_h);
  }

  -- The runaway guard, and the step behind it.
  unfoldable pub guarded : Mode → Input F → Height F → F × Height F
  unfolding give_up drive
  guarded mode x h =
      if x.in_air && fl.lt (fl.add h.alt_sp (fl.lit 2 0)) x.alt_m
      then if fl.le (fl.lit 1 0) (timed x h).runaway_t
        then give_up x (timed x h)
        else drive mode x (timed x h)
      else drive mode x (record h { runaway_t = zero_h })

  -- `height_ctrl_update`: the collective and the controller.
  unfoldable pub update : Mode → Input F → Height F → F × Height F
  unfolding disengage handback_step engage lift_over hand_off guarded
  update mode x h =
      if is_off mode
      then disengage x h
      else if h.failed
      then handback_step x h
      else guarded mode x (hand_off mode x (lift_over x (engage x h)))
