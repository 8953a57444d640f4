-- ===== src/Signal.antt =====
-- The fixed-point signal path: model/coil_servo_model/fixed_point.py.
pub mod Sat
pub mod Decimator
pub mod Pi
pub mod Mux
pub mod DriveFrame
pub mod Path
pub mod Gain
