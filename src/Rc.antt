-- ===== src/Rc.antt =====
-- The radio-control path of firmware/src/comm: rc_safety.c (link watchdog, throttle failsafe,
-- plausibility, arming gate), and rc_task.c (the policy applied to each frame).
pub mod Safety
pub mod Task
