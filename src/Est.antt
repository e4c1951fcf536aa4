-- ===== src/Est.antt =====
-- firmware/src/est: the takeoff and landing detector, the hover estimate and the low-pass filter.
pub mod Phase
pub mod Hover
