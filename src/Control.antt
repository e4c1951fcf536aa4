-- ===== src/Control.antt =====
-- firmware/src/control: the PID and INDI controllers, the motor mixer, the throttle
-- curve and the height controller.
pub mod Pid
pub mod Mixer
pub mod Indi
pub mod Throttle
pub mod Height
pub mod Sysid
