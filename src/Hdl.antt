-- ===== src/Hdl.antt =====
-- modules/*.v: the hardware of the servo, clock by clock. Hdl.Wires has what assignments to words
-- of fixed width do, Hdl.Dut the simulator that the test benches of sim drive.
pub mod Wires
pub mod Dut
pub mod FlipFsm
pub mod Pi
pub mod Decimator
pub mod ErrorPath
pub mod OutputMux
pub mod Top
