-- ===== src/Hdl/ErrorPath.antt =====
-- modules/servo_error.v: the setpoint multiplexer and the rotation into the frame of the bridge.
use coil_servo.Base.{Bool, false, not, if◌then◌else◌}
use coil_servo.Base.Int.{ℤ, pos, neg, ◌-ℤ◌, ltb_ℤ}
use coil_servo.Hdl.Wires.{as_signed}

pub record ErrorRegs : Type 0 where
  pub e_fast : ℤ
  pub sp_active : ℤ
  pub sp_sign_mismatch : Bool

pub record ErrorInputs : Type 0 where
  pub aresetn : Bool
  pub meas : ℤ
  pub in2 : ℤ
  pub sp_reg : ℤ
  pub sp_source : Bool
  pub sp_force_zero : Bool
  pub polarity : Bool

-- The wires `sp` and `e`.
unfoldable pub sp : ErrorInputs → ℤ
sp x = if x.sp_force_zero then pos 0 else if x.sp_source then x.sp_reg else x.in2

unfoldable pub error : ErrorInputs → ℤ
error x = as_signed 15 (sp x -ℤ x.meas)

-- One rising edge of `aclk`.
unfoldable pub clock : ErrorInputs → ErrorRegs → ErrorRegs
clock x r =
    if not x.aresetn
    then record { e_fast = pos 0; sp_active = pos 0; sp_sign_mismatch = false }
    else record {
      e_fast = if x.polarity then as_signed 15 (neg (error x)) else error x;
      sp_active = sp x;
      sp_sign_mismatch = if x.polarity then ltb_ℤ (pos 64) (sp x) else ltb_ℤ (sp x) (neg (pos 64));
    }
