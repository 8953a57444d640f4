-- ===== src/Hdl/Decimator.antt =====
-- modules/servo_decimator.v: the boxcar decimator.
use coil_servo.Base.{ℕ, ◌+◌, ◌%◌, ◌^◌, Bool, true, false, not, if◌then◌else◌, ◌==◌}
use coil_servo.Base.Int.{ℤ, pos, ◌+ℤ◌}
use coil_servo.Hdl.Wires.{as_signed}

pub record DecimatorRegs : Type 0 where
  pub acc : ℤ
  pub count : ℕ
  pub e_out : ℤ
  pub out_valid : Bool

pub record DecimatorInputs : Type 0 where
  pub aresetn : Bool
  pub in_valid : Bool
  pub e_fast : ℤ

-- The sum, in the 22 bits of the registers that take it.
unfoldable pub added : DecimatorInputs → DecimatorRegs → ℤ
added x r = as_signed 22 (r.acc +ℤ x.e_fast)

-- One rising edge of `aclk`.
unfoldable pub clock : DecimatorInputs → DecimatorRegs → DecimatorRegs
clock x r =
    if not x.aresetn
    then record { acc = pos 0; count = 0; e_out = pos 0; out_valid = false }
    else if not x.in_valid
    then record r { out_valid = false }
    else if r.count == 127
    then record { acc = pos 0; count = 0; e_out = added x r; out_valid = true }
    else record r { acc = added x r; count = (r.count + 1) % 2 ^ 7; out_valid = false }
