-- ===== src/Hdl/Top/Sizes.antt =====
-- The registers that the status block shows keep their widths.
use coil_servo.Base.{ℕ, ◌^◌, ◌<◌, ◌≡◌, inl, inr, arith, false, List, [], ◌∷◌}
use coil_servo.Base.Int.{ℤ, pos, neg, IsSigned}
use coil_servo.Hdl.Wires.{as_signed, as_signed-IsSigned}
use coil_servo.Hdl.Pi
use coil_servo.Hdl.Pi.{clamp_out, clamp_pos, u14_wire}
use coil_servo.Hdl.Decimator
use coil_servo.Hdl.Decimator.{DecimatorInputs, DecimatorRegs, added}
use coil_servo.Hdl.ErrorPath
use coil_servo.Hdl.ErrorPath.{ErrorInputs, ErrorRegs, sp}
use coil_servo.Hdl.Top.{TopRegs, TopInputs, clock, dec_inputs, err_inputs, pi_inputs}
use coil_servo.Hdl.Top.Config.{wires}
use coil_servo.Hdl.Top.Safety.{run, clock_u14}

-- The widths of the registers.
pub record IsSized (r : TopRegs) : Type 0 where
  pub current_fits : IsSigned 22 r.dec_i.e_out
  pub error_fits : IsSigned 22 r.dec_e.e_out
  pub setpoint_fits : IsSigned 14 r.err_0.sp_active
  pub output_fits : IsSigned 14 r.pi_0.u14
  pub count_fits : r.hb_cnt < 2 ^ 32

clamp_out-IsSigned : (u24 : ℤ) (clamp : ℕ) → IsSigned 14 (clamp_out u24 clamp)
unfolding clamp_out clamp_pos
clamp_out-IsSigned u24 clamp = ground (
  arith,
  as_signed-IsSigned 13 (pos clamp),
  as_signed-IsSigned 13 (neg (as_signed 14 (pos clamp))),
  as_signed-IsSigned 13 (u14_wire u24),
)

added-IsSigned : (x : DecimatorInputs) (r : DecimatorRegs) → IsSigned 22 (added x r)
unfolding added
added-IsSigned x r = as_signed-IsSigned 21 _

decimator-IsSigned :
    (x : DecimatorInputs) (r : DecimatorRegs)
    → IsSigned 22 r.e_out
    → IsSigned 22 (Decimator.clock x r).e_out
unfolding Decimator.clock
decimator-IsSigned x r h = ground (arith, added-IsSigned x r)

setpoint-IsSigned :
    (x : ErrorInputs) (r : ErrorRegs)
    → IsSigned 14 x.sp_reg
    → IsSigned 14 x.in2
    → IsSigned 14 (ErrorPath.clock x r).sp_active
unfolding ErrorPath.clock sp
setpoint-IsSigned x r h k = ground arith

sp_reg-IsSigned : (cfg_data : ℕ) → IsSigned 14 (wires cfg_data).sp_reg
unfolding wires
sp_reg-IsSigned cfg_data = as_signed-IsSigned 13 _

module _ (x : TopInputs) (r : TopRegs) where
  u14-IsSigned : IsSigned 14 r.pi_0.u14 → IsSigned 14 (Pi.clock (pi_inputs x r) r.pi_0).u14
  u14-IsSigned h = elim (clock_u14 (pi_inputs x r) r.pi_0) [
    | inl kept ↦ rw kept h
    | inr (inl zero) ↦ rw zero (omega arith)
    | inr (inr taken) ↦ rw taken (clamp_out-IsSigned r.pi_0.u24 (wires x.cfg_data).out_clamp)
  ]

  clock_setpoint : IsSigned 14 (ErrorPath.clock (err_inputs x r) r.err_0).sp_active
  clock_setpoint =
      setpoint-IsSigned (err_inputs x r) r.err_0 (sp_reg-IsSigned x.cfg_data)
        (as_signed-IsSigned 13 _)

  clock-IsSized : IsSized r → IsSized (clock x r)
  unfolding clock
  clock-IsSized z = record {
    current_fits = decimator-IsSigned (dec_inputs x r r.meas_r) r.dec_i z.current_fits;
    error_fits = decimator-IsSigned (dec_inputs x r r.err_0.e_fast) r.dec_e z.error_fits;
    setpoint_fits = clock_setpoint;
    output_fits = u14-IsSigned z.output_fits;
    count_fits = omega arith;
  }

  -- An edge in reset gives all of them their widths.
  pub reset-IsSized : x.aresetn ≡ false → IsSized (clock x r)
  unfolding clock Pi.clock Decimator.clock
  reset-IsSized down = record {
    current_fits = rw down (omega arith);
    error_fits = rw down (omega arith);
    setpoint_fits = clock_setpoint;
    output_fits = rw down (omega arith);
    count_fits = omega arith;
  }

pub run-IsSized : (xs : List TopInputs) (r : TopRegs) → IsSized r → IsSized (run r xs)
unfolding run
run-IsSized [] r z = z
run-IsSized (x ∷ xs) r z = run-IsSized xs (clock x r) (clock-IsSized x r z)
