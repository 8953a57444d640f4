-- ===== src/Hdl/Dut.antt =====
-- What the benches of sim see of a module. A value written between two edges of the clock is there
-- at the next edge, and a register that is read after `await RisingEdge` has not taken that edge yet:
-- this is how cocotb orders its writes and reads.
use coil_servo.Base.{ℕ, zero, suc, Bool, true, false}

-- The registers as they can be read, the inputs of the edge that they have still to take, and the
-- inputs as they are driven now.
pub record Dut (R I : Type 0) : Type 0 where
  pub regs : R
  pub sampled : I
  pub driven : I

module _ {R I : Type 0} where
  -- `dut.x.value = v`.
  unfoldable pub write : (I → I) → Dut R I → Dut R I
  write change d = record d { driven = change d.driven }

  -- `await RisingEdge(dut.aclk)`.
  unfoldable pub edge : (I → R → R) → Dut R I → Dut R I
  edge clock d = record d { regs = clock d.sampled d.regs; sampled = d.driven }

  -- `for _ in range(n): await RisingEdge(dut.aclk)`.
  unfoldable pub edges : (I → R → R) → ℕ → Dut R I → Dut R I
  edges clock zero d = d
  edges clock (suc n) d = edges clock n (edge clock d)

  -- `reset` of sim/tb_util.py, for a module whose input `aresetn` is written by `set_aresetn`.
  unfoldable pub reset : (I → R → R) → (Bool → I → I) → Dut R I → Dut R I
  unfolding edges
  reset clock set_aresetn d =
      edge clock (write (set_aresetn true) (edges clock 4 (write (set_aresetn false) d)))
