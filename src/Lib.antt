-- ===== src/Lib.antt =====
-- Vayu: the flight-controller firmware's state machine, radio link, ESC calibration, bulk transfer, file
-- service, telemetry channel, inner control laws and flight-phase detector.
--
-- The receiver's bytes arrive in a ring that the RC task drains into the iBus decoder. Each complete
-- frame goes through the RC safety layer, which judges the link and asks the system state machine for
-- a transition, and then to ESC calibration, which drives the motors itself in one state. Ground
-- commands arrive on the comm task; bulk transfers are opened and acknowledged there and served by a
-- tick of their own, whose frames share the telemetry channel with everything else. The rate controllers
-- feed the mixer, which commands the motors; the flight-phase detector moves the system state between
-- ARMED and IN_AIR.
--
-- Files, and the sources that they model:
--   State: firmware/src/sys/state.c. `set` is `system_state_set`.
--   Boot: firmware/src/sys/boot.c. `task` is `boot_task`, `flight_late` the `system_boot_late_init` of
--     firmware/src/main.c.
--   Ibus: firmware/src/comm/ibus.c. `parse_byte` is `ibus_parse_byte`; `Parser` holds its statics.
--   Rc/Safety: firmware/src/comm/rc_safety.c. Rc/Task: firmware/src/comm/rc_task.c; `apply_frame` is
--     `rc_apply_frame`, `drain` one pass of the task's loop.
--   EscCalib: firmware/src/actuator/esc_calib.c. `rc_step` is `esc_calib_rc_step`, `boot_init` is
--     `esc_calib_boot_init`.
--   Xfer: firmware/src/comm/xfer/navlink_xfer.c and its header. Xfer/Comm has `xfer_on_open`,
--     `xfer_on_data`, `xfer_on_ack`, `xfer_on_sack` and `xfer_on_close`; Xfer/Emit and Xfer/Tick have
--     `xfer_tick` and what it calls. A provider and the emitter are records of operations over a type of
--     worlds, as they are tables of functions in the source.
--   Channel: firmware/src/comm/channel.c, the transmit buffers. FlightMode:
--     firmware/src/control/flight_mode.c. IrqRegistry: firmware/src/sys/irq_registry.c.
--   FsOwner: firmware/src/storage/fs_owner.c, the cached file handles and the positioned writes that
--     uploads and ESC calibration go through; FsOwner/Lanes, its save, write and sync lanes and the round
--     of its task; FsOwner/Sync, the call that other tasks reach it by.
--   Providers: firmware/src/comm/xfer/providers, the tables of operations that Xfer takes, over FsOwner.
--   FsQuery: firmware/src/comm/xfer/fs_query.c, the directory listing, the stat and the delete with its
--     policy; FsQuery/Names, what FatFS takes a path to name.
--   RxRing: firmware/src/comm/serializer.c, the ring of received bytes.
--   Router: the command adapters of firmware/src/comm/navlink_router.c, the deferred answer to CMD_ARM, and
--     the command branch of firmware/src/comm/comm_processor.c that they reuse, over PidConfig,
--     Control/Sysid and State.
--   Control: firmware/src/control/pid.c (Pid), mixer.c (Mixer), rate_indi.c (Indi), throttle_curve.c
--     (Throttle), height_controller.c (Height) and sysid.c (Sysid), with the loop of
--     firmware/src/comm/telemetry_task.c that sends a dump (Sysid/Dump; its `polls` are as many rounds
--     of that loop as a number, and a dump of 1000 samples ends within 1000; the task makes up to two
--     rounds in a turn). Est: firmware/src/est/flight_phase.c
--     (Phase), with the hand-over of its events in firmware/src/est/vertical_task.c, and
--     hover_estimate.c (Hover).
--     Control/Mixer/Geometry, the geometry of the motors with its command in
--     firmware/src/control/angle_rate_controller.c, over Maths/Inverse, the inverse of
--     firmware/include/maths/linalg.h.
--     Maths: the clamp of firmware/src/maths/maths_interface.c, and the record of floating-point
--     operations that these stand on; Maths/Fixed is an instance of it to run them on.
--   Hub: firmware/src/hub/hub.c, the queues between the tasks and the latest-value slots; Hub/Slot, the
--     slot of the vertical state. PidConfig: firmware/src/control/pid_config.c, the tune of the ground,
--     with the setters of firmware/src/control/angle_rate_controller.c and angle_controller.c, their
--     restore at boot, and the parameters of firmware/src/dsp/gyro_notch.c.
--   I2cManager: firmware/src/driver/i2c_manager.c, the ownership and the recovery of the bus.
--   Common: lists, tests and fixed-width arithmetic that the others share.
-- The children of a module hold its theorems, and each module's Tests its concrete runs.
--
-- Numbers are natural numbers, with the wrap of the machine type written out where an operation can
-- wrap. The kernel's tick count, the estimator's health, and the answers of the file-system owner are
-- arguments. A tick count is read once per call. The emission loops recurse on the tick's chunk
-- budget, which bounds them in the source too. A positioned write is queued and counted in one step, where
-- the source counts after the push and the task may run between the two. The counters of imu.control and
-- att.control are kept by pops through a descriptor (Hub.Queues.pop_fd); what is shown of the counted
-- topics is about those that are polled.
--
-- Not modelled: a comm-task handler that interrupts a tick; the UART, I2C and SD-card drivers, which
-- stand on a hardware layer outside the repository; the kernel; the filters and estimators, whose claims
-- are numerical; the attitude controllers; the recorder, the rest of the router and its
-- generated codec, the simulators and the tools.
pub mod Common
pub mod State
pub mod Boot
pub mod Ibus
pub mod Rc
pub mod EscCalib
pub mod Est
pub mod Maths
pub mod Control
pub mod Channel
pub mod FlightMode
pub mod FsOwner
pub mod FsQuery
pub mod Hub
pub mod I2cManager
pub mod IrqRegistry
pub mod Router
pub mod RxRing
pub mod PidConfig
pub mod Providers
pub mod Xfer
