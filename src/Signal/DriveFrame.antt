-- ===== src/Signal/DriveFrame.antt =====
-- `drive_frame_error` of model/coil_servo_model/fixed_point.py: the setpoint multiplexer and the
-- rotation into the frame of the bridge.
use coil_servo.Base.{ℕ, ◌≡◌, ◌↔◌, arith, Bool, if◌then◌else◌, bool_to_ℕ}
use coil_servo.Base.Int.{
  ℤ, pos, neg, ◌-ℤ◌, ◌<ℤ◌, ltb_ℤ, IsSigned, neg_parts, -ℤ_parts, parts_disjoint, eq_of_parts,
}

-- `MISMATCH_THR`.
abbrev pub mismatch_thr : ℤ
mismatch_thr = pos 64

-- The flags are tested for truth, so they are Booleans here.
unfoldable pub active_setpoint : ℤ → ℤ → Bool → Bool → ℤ
active_setpoint in2_code sp_reg sp_source sp_force_zero =
    if sp_force_zero then pos 0 else if sp_source then sp_reg else in2_code

unfoldable pub drive_frame_error : ℤ → ℤ → ℤ → Bool → Bool → Bool → ℤ × ℤ × ℕ
drive_frame_error meas_code in2_code sp_reg sp_source sp_force_zero polarity =
    let sp = active_setpoint in2_code sp_reg sp_source sp_force_zero in
    let e = sp -ℤ meas_code in
    (
      if polarity then neg e else e,
      sp,
      bool_to_ℕ (if polarity then ltb_ℤ mismatch_thr sp else ltb_ℤ sp (neg mismatch_thr)),
    )

pub active_setpoint-IsSigned :
    (in2 sp : ℤ) (source force : Bool)
    → IsSigned 14 in2
    → IsSigned 14 sp
    → IsSigned 14 (active_setpoint in2 sp source force)
unfolding active_setpoint
active_setpoint-IsSigned in2 sp source force hi hs = ground arith

-- A code seen in the frame of the bridge: the current that the drive pushes is positive.
abbrev pub rotate : Bool → ℤ → ℤ
rotate polarity x = if polarity then neg x else x

-- On 14-bit codes the error fits the 15 bits that the decimator asserts, for every setting of the
-- flags, and the active setpoint fits 14 bits.
pub drive_frame_error-IsSigned :
    (meas in2 sp : ℤ) (source force polarity : Bool)
    → IsSigned 14 meas
    → IsSigned 14 in2
    → IsSigned 14 sp
    → let (e, active, _) = drive_frame_error meas in2 sp source force polarity in
      IsSigned 15 e × IsSigned 14 active
unfolding drive_frame_error
drive_frame_error-IsSigned meas in2 sp source force polarity hm hi hs =
    let active = active_setpoint in2 sp source force in
    ground (
      arith,
      active_setpoint-IsSigned in2 sp source force hi hs,
      neg_parts (active -ℤ meas),
      -ℤ_parts active meas,
      parts_disjoint (active -ℤ meas),
      parts_disjoint meas,
      parts_disjoint active,
    )

-- The error is the rotated setpoint less the rotated measurement, and the flag is raised exactly
-- when the rotated setpoint is more than 64 counts negative.
pub drive_frame_error_rotates :
    (meas in2 sp : ℤ) (source force polarity : Bool)
    → let (e, active, mismatch) = drive_frame_error meas in2 sp source force polarity in
      (e ≡ rotate polarity active -ℤ rotate polarity meas)
      × ((mismatch ≡ 1) ↔ (rotate polarity active <ℤ neg (pos 64)))
unfolding drive_frame_error
drive_frame_error_rotates meas in2 sp source force polarity =
    let active = active_setpoint in2 sp source force in
    ground (
      arith,
      neg_parts (active -ℤ meas),
      neg_parts active,
      neg_parts meas,
      -ℤ_parts active meas,
      -ℤ_parts (neg active) (neg meas),
      eq_of_parts (neg (active -ℤ meas)) (neg active -ℤ neg meas),
      neg_parts (pos 64),
    )
