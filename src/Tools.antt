-- ===== src/Tools.antt =====
-- The programs of host/coil_servo_host that drive a board: check.py, step.py, sweep.py and watch.py,
-- and the methods of `Board` that they use besides the register map.
pub mod Script
pub mod Methods
pub mod Held
pub mod Waiting
pub mod Session
pub mod Check
pub mod Watch
pub mod Drive
pub mod Step
pub mod Transfer
pub mod Sweep
