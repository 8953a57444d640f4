-- ===== src/Sim.antt =====
-- The test benches of sim against the modules of the hardware. What a bench draws at random is a
-- parameter, so its assertions are theorems about every input.
pub mod PiBench
pub mod DecimatorBench
pub mod ErrorBench
pub mod MuxBench
