-- ===== src/Hub/Queues.antt =====
-- The counters of firmware/src/hub/hub.c, and the queue operations that keep them.
pub mod Drops
pub mod Overrun
use vayu.Common.{
  ℕ, ◌+◌, Bool, true, false, not, Option, none, some, ltb, if◌then◌else◌, u16, u32, sub32, ℤ,
  is_negative,
}
use vayu.Hub.{
  Topic, imu_attitude, imu_control, imu_telemetry, att_telemetry, att_control, imu_calib, est_perf,
  vert_input, Got, Bus, Stat, Latest, publish_latest, taken, came,
}

-- The eviction that the writer counts.
abbrev pub count_eviction : Stat → Stat
count_eviction st =
    if ltb st.capacity (sub32 st.published st.popped)
    then record st { evicted = u32 (st.evicted + 1) }
    else st

-- `live` and its high-water mark.
abbrev pub live : Stat → ℕ
live st = sub32 (sub32 st.published st.popped) st.evicted

abbrev pub mark_peak : Stat → Stat
mark_peak st = if ltb st.peak (live st) then record st { peak = u16 (live st) } else st

-- `hub_stat_pub`.
unfoldable pub stat_pub : Bool → Stat → Stat
stat_pub ok st =
    if not ok
    then st
    else mark_peak (count_eviction (record st { published = u32 (st.published + 1) }))

-- `hub_stat_pop`.
unfoldable pub stat_pop : Bool → ℕ → Stat → Stat
stat_pop ok missed st =
    let seen = record st { missed = u32 (st.missed + missed) } in
    if ok then record seen { popped = u32 (st.popped + 1) } else seen

module _ {M W : Type 0} (bus : Bus M W) where
  -- `imu_queue_telemetry_push`, and with it every push that keeps counters.
  unfoldable pub push_counted : Topic → M → Stat → W → Bool × Stat × W
  unfolding stat_pub
  push_counted t m st w = let (ok, w') = bus.publish t m w in (ok, stat_pub ok st, w')

  -- `imu_queue_telemetry_pop`, and with it every poll that keeps counters.
  unfoldable pub pop_counted : Topic → Stat → W → Option M × Stat × W
  unfolding stat_pop
  pop_counted t st w = let (g, w') = bus.pop t w in (taken g, stat_pop (came g) g.missed st, w')

  -- `est_perf_queue_pop`.
  unfoldable pub pop_plain : Topic → W → Option M × W
  pop_plain t w = let (g, w') = bus.pop t w in (taken g, w')

  -- `hub_fd_ready`: whether a handle is open, the handle, and the world.
  unfoldable pub fd_ready : Topic → ℤ → W → Bool × ℤ × W
  fd_ready t fd w =
      if not (is_negative fd)
      then (true, fd, w)
      else (let (new, w') = bus.fd_open t w in (not (is_negative new), new, w'))

  -- `imu_queue_control_pop` and `attitude_queue_control_pop`.
  unfoldable pub pop_fd : Topic → ℤ → Stat → W → Option M × ℤ × Stat × W
  unfolding fd_ready stat_pop
  pop_fd t fd st w =
      let (ready, fd', w') = fd_ready t fd w in
      if not ready
      then (none, fd', st, w')
      else (let (g, w'') = bus.recv fd' w' in (taken g, fd', stat_pop (came g) g.missed st, w''))

  -- `imu_queue_attitude_pop` and `vert_input_queue_pop`, with the count of what they missed.
  unfoldable pub pop_missed : Topic → ℤ → ℕ → W → Option M × ℤ × ℕ × W
  unfolding fd_ready
  pop_missed t fd missed w =
      let (ready, fd', w') = fd_ready t fd w in
      if not ready
      then (none, fd', missed, w')
      else (let (g, w'') = bus.recv fd' w' in (taken g, fd', u32 (missed + g.missed), w''))

  -- The four waits.
  unfoldable pub wait_fd : Topic → ℤ → ℕ → W → Bool × ℤ × W
  unfolding fd_ready
  wait_fd t fd ticks w =
      let (ready, fd', w') = fd_ready t fd w in
      if not ready
      then (false, fd', w')
      else (let (ok, w'') = bus.wait fd' ticks w' in (ok, fd', w''))

  -- A publish on a topic without counters; a kernel with handles wakes the reader itself.
  abbrev push_plain : Topic → M → W → Bool × W
  push_plain t m w = bus.publish t m w

  -- The functions of the file, each on its topic.
  abbrev imu_queue_telemetry_push : M → Stat → W → Bool × Stat × W
  imu_queue_telemetry_push = push_counted imu_telemetry

  abbrev imu_queue_telemetry_pop : Stat → W → Option M × Stat × W
  imu_queue_telemetry_pop = pop_counted imu_telemetry

  abbrev imu_queue_control_push : M → Stat → W → Bool × Stat × W
  imu_queue_control_push = push_counted imu_control

  abbrev imu_queue_control_pop : ℤ → Stat → W → Option M × ℤ × Stat × W
  imu_queue_control_pop = pop_fd imu_control

  abbrev imu_queue_control_wait : ℤ → ℕ → W → Bool × ℤ × W
  imu_queue_control_wait = wait_fd imu_control

  abbrev imu_queue_attitude_push : M → W → Bool × W
  imu_queue_attitude_push = push_plain imu_attitude

  abbrev imu_queue_attitude_pop : ℤ → ℕ → W → Option M × ℤ × ℕ × W
  imu_queue_attitude_pop = pop_missed imu_attitude

  abbrev imu_queue_attitude_wait : ℤ → ℕ → W → Bool × ℤ × W
  imu_queue_attitude_wait = wait_fd imu_attitude

  -- The latest attitude is kept beside the queue.
  abbrev attitude_queue_telemetry_push : M → Latest M → Stat → W → Bool × Latest M × Stat × W
  attitude_queue_telemetry_push m s st w =
      let (ok, st', w') = push_counted att_telemetry m st w in (ok, publish_latest m s, st', w')

  abbrev attitude_queue_telemetry_pop : Stat → W → Option M × Stat × W
  attitude_queue_telemetry_pop = pop_counted att_telemetry

  abbrev attitude_queue_control_push : M → Stat → W → Bool × Stat × W
  attitude_queue_control_push = push_counted att_control

  abbrev attitude_queue_control_pop : ℤ → Stat → W → Option M × ℤ × Stat × W
  attitude_queue_control_pop = pop_fd att_control

  abbrev attitude_queue_control_wait : ℤ → ℕ → W → Bool × ℤ × W
  attitude_queue_control_wait = wait_fd att_control

  abbrev est_perf_queue_push : M → W → Bool × W
  est_perf_queue_push = push_plain est_perf

  abbrev est_perf_queue_pop : W → Option M × W
  est_perf_queue_pop = pop_plain est_perf

  abbrev vert_input_queue_push : M → W → Bool × W
  vert_input_queue_push = push_plain vert_input

  abbrev vert_input_queue_pop : ℤ → ℕ → W → Option M × ℤ × ℕ × W
  vert_input_queue_pop = pop_missed vert_input

  abbrev vert_input_queue_wait : ℤ → ℕ → W → Bool × ℤ × W
  vert_input_queue_wait = wait_fd vert_input

  abbrev imu_queue_calibration_telemetry_push : M → Stat → W → Bool × Stat × W
  imu_queue_calibration_telemetry_push = push_counted imu_calib

  abbrev imu_queue_calibration_telemetry_pop : Stat → W → Option M × Stat × W
  imu_queue_calibration_telemetry_pop = pop_counted imu_calib
