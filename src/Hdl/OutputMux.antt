-- ===== src/Hdl/OutputMux.antt =====
-- modules/servo_output_mux.v: the hand-over between the pass bank and the clamp, with the enable.
pub mod Codes
use coil_servo.Base.{ℕ, Bool, true, false, not, ◌||◌, if◌then◌else◌}
use coil_servo.Base.Int.{ℤ, pos, neg, ltb_ℤ}
use coil_servo.Hdl.Wires.{as_signed}

pub record MuxRegs : Type 0 where
  pub out1 : ℤ
  pub out2 : ℤ

pub record MuxInputs : Type 0 where
  pub aresetn : Bool
  pub enable : Bool
  pub u14 : ℤ
  pub deadband : ℕ
  pub out2_invert : Bool

-- The wires `db`, `mag15` and `mag`.
unfoldable pub db : MuxInputs → ℤ
db x = as_signed 15 (pos x.deadband)

unfoldable pub mag15 : MuxInputs → ℤ
mag15 x = as_signed 15 (neg x.u14)

unfoldable pub mag : MuxInputs → ℤ
mag x = if ltb_ℤ (pos 8191) (mag15 x) then pos 8191 else as_signed 14 (mag15 x)

-- One rising edge of `aclk`.
unfoldable pub clock : MuxInputs → MuxRegs → MuxRegs
clock x r =
    if not x.aresetn || not x.enable
    then record { out1 = pos 0; out2 = pos 0 }
    else if ltb_ℤ (db x) x.u14
    then record { out1 = x.u14; out2 = pos 0 }
    else if ltb_ℤ x.u14 (as_signed 15 (neg (db x)))
    then record { out1 = pos 0; out2 = if x.out2_invert then as_signed 14 (neg (mag x)) else mag x }
    else record { out1 = pos 0; out2 = pos 0 }
