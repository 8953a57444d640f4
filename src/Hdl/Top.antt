-- ===== src/Hdl/Top.antt =====
-- cores/coil_servo_top.v: the modules of the servo wired together, with the conditioning of the
-- inputs, the open-loop bypass, the boost output and the status block.
pub mod Config
pub mod Safety
pub mod Boost
pub mod Status
pub mod Sizes
pub mod Stream
use coil_servo.Base.{
  ℕ, ◌+◌, ◌-◌, ◌*◌, ◌/◌, ◌%◌, ◌^◌, Bool, true, false, not, ◌&&◌, ◌||◌, if◌then◌else◌, same_bool,
  leb,
}
use coil_servo.Base.Int.{ℤ, pos, neg, ltb_ℤ, abs_ℤ}
use coil_servo.Base.Bits.Fields.{field}
use coil_servo.Registers.Encode.{low_bits}
use coil_servo.Hdl.Wires.{as_signed}
use coil_servo.Hdl.FlipFsm
use coil_servo.Hdl.FlipFsm.{Fsm}
use coil_servo.Hdl.Pi
use coil_servo.Hdl.Pi.{PiRegs}
use coil_servo.Hdl.Decimator
use coil_servo.Hdl.Decimator.{DecimatorRegs}
use coil_servo.Hdl.ErrorPath
use coil_servo.Hdl.ErrorPath.{ErrorRegs}
use coil_servo.Hdl.OutputMux
use coil_servo.Hdl.OutputMux.{MuxRegs}
use Config.{CfgWires, wires, bit_at, signed_at}

-- The registers of the top and of its modules.
pub record TopRegs : Type 0 where
  -- The three pins: fault, arm and flip request.
  pub meta_fault : Bool
  pub meta_arm : Bool
  pub meta_flip : Bool
  pub fault : Bool
  pub armed : Bool
  pub sync_flip : Bool
  pub flip_prev : Bool
  pub valid_r : Bool
  pub meas_r : ℤ
  pub err_0 : ErrorRegs
  pub dec_e : DecimatorRegs
  pub dec_i : DecimatorRegs
  pub fsm_0 : Fsm
  pub pi_0 : PiRegs
  pub u_drive : ℤ
  pub mux_0 : MuxRegs
  pub auto_boost : Bool
  pub boost_o : Bool
  pub hb_cnt : ℕ

pub record TopInputs : Type 0 where
  pub aresetn : Bool
  pub s_axis_tdata : ℕ
  pub s_axis_tvalid : Bool
  pub cfg_data : ℕ
  pub flip_req_i : Bool
  pub arm_i : Bool
  pub fault_i : Bool

abbrev pub meas_code : TopInputs → ℤ
meas_code x = signed_at x.s_axis_tdata 0 14

abbrev pub in2_code : TopInputs → ℤ
in2_code x = signed_at x.s_axis_tdata 16 14

-- The inputs of the modules.
abbrev pub err_inputs : TopInputs → TopRegs → ErrorPath.ErrorInputs
err_inputs x r = record {
  aresetn = x.aresetn;
  meas = meas_code x;
  in2 = in2_code x;
  sp_reg = (wires x.cfg_data).sp_reg;
  sp_source = (wires x.cfg_data).sp_source;
  sp_force_zero = r.fsm_0.sp_force_zero;
  polarity = r.fsm_0.polarity;
}

abbrev pub dec_inputs : TopInputs → TopRegs → ℤ → Decimator.DecimatorInputs
dec_inputs x r sample = record { aresetn = x.aresetn; in_valid = r.valid_r; e_fast = sample }

abbrev pub fsm_inputs : TopInputs → TopRegs → FlipFsm.Inputs
fsm_inputs x r = record {
  aresetn = x.aresetn;
  servo_enable = (wires x.cfg_data).servo_enable;
  armed = r.armed;
  flip_req = r.sync_flip && not r.flip_prev;
  flip_fault_ack = (wires x.cfg_data).flip_fault_ack;
  tick = r.dec_i.out_valid;
  i_meas = r.dec_i.e_out;
  zero_win = (wires x.cfg_data).zero_win;
  zero_holdoff = (wires x.cfg_data).zero_holdoff;
  deadtime = (wires x.cfg_data).deadtime;
  settle = (wires x.cfg_data).settle;
  flip_timeout = (wires x.cfg_data).flip_timeout;
}

abbrev pub pi_inputs : TopInputs → TopRegs → Pi.PiInputs
pi_inputs x r = record {
  aresetn = x.aresetn;
  tick = r.dec_e.out_valid;
  e = r.dec_e.e_out;
  kp_mant = (wires x.cfg_data).kp_mant;
  kp_shift = (wires x.cfg_data).kp_shift;
  ki_mant = (wires x.cfg_data).ki_mant;
  ki_shift = (wires x.cfg_data).ki_shift;
  clamp = (wires x.cfg_data).out_clamp;
  int_hold = r.fsm_0.int_hold;
  int_clear = r.fsm_0.int_clear || (wires x.cfg_data).int_clear_host;
}

abbrev pub mux_inputs : TopInputs → TopRegs → OutputMux.MuxInputs
mux_inputs x r = record {
  aresetn = x.aresetn;
  enable = r.fsm_0.bridge_en;
  u14 = r.u_drive;
  deadband = (wires x.cfg_data).deadband;
  out2_invert = (wires x.cfg_data).out2_invert;
}

-- The open-loop bypass.
unfoldable pub sp_clamped : ℕ → ℤ → ℤ
sp_clamped out_clamp sp_active =
    let clamp_pos_ol = as_signed 14 (pos out_clamp) in
    let clamp_neg = as_signed 14 (neg clamp_pos_ol) in
    if ltb_ℤ clamp_pos_ol sp_active
    then clamp_pos_ol
    else if ltb_ℤ sp_active clamp_neg
    then clamp_neg
    else sp_active

-- The boost threshold. The concatenation of the setpoint with seven zeros is a word of 21 bits without
-- sign, so the wire `sp20` of 22 bits gets a zero for its highest bit.
unfoldable pub abs_sp : ℤ → ℕ
abs_sp sp_active =
    let sp20 = low_bits sp_active 14 * 2 ^ 7 in
    if bit_at sp20 21 then (2 ^ 22 - sp20) % 2 ^ 22 else sp20

unfoldable pub boost_thresh : ℤ → ℕ
unfolding abs_sp
boost_thresh sp_active = abs_sp sp_active - abs_sp sp_active / 2 ^ 3

unfoldable pub next_boost : TopInputs → TopRegs → Bool
next_boost x r =
    if not x.aresetn
    then false
    else if r.fsm_0.int_clear
    then true
    else if not r.fsm_0.sp_force_zero
        && (r.dec_i.out_valid && leb (boost_thresh r.err_0.sp_active) (abs_ℤ r.dec_i.e_out))
    then false
    else r.auto_boost

-- One bit of `dio_meta ^ dio_invert`.
abbrev inverted : Bool → ℕ → ℕ → Bool
inverted pin dio_invert i = not (same_bool pin (bit_at dio_invert i))

-- One rising edge of `aclk`.
unfoldable pub clock : TopInputs → TopRegs → TopRegs
clock x r = record {
  meta_fault = x.fault_i;
  meta_arm = x.arm_i;
  meta_flip = x.flip_req_i;
  fault = inverted r.meta_fault (wires x.cfg_data).dio_invert 2;
  armed = inverted r.meta_arm (wires x.cfg_data).dio_invert 1;
  sync_flip = inverted r.meta_flip (wires x.cfg_data).dio_invert 0;
  flip_prev = r.sync_flip;
  valid_r = x.aresetn && x.s_axis_tvalid;
  meas_r = meas_code x;
  err_0 = ErrorPath.clock (err_inputs x r) r.err_0;
  dec_e = Decimator.clock (dec_inputs x r r.err_0.e_fast) r.dec_e;
  dec_i = Decimator.clock (dec_inputs x r r.meas_r) r.dec_i;
  fsm_0 = FlipFsm.clock (fsm_inputs x r) r.fsm_0;
  pi_0 = Pi.clock (pi_inputs x r) r.pi_0;
  u_drive =
      if not x.aresetn
      then pos 0
      else if (wires x.cfg_data).open_loop
      then sp_clamped (wires x.cfg_data).out_clamp r.err_0.sp_active
      else r.pi_0.u14;
  mux_0 = OutputMux.clock (mux_inputs x r) r.mux_0;
  auto_boost = next_boost x r;
  boost_o =
      x.aresetn
      && (if (wires x.cfg_data).boost_mode
          then r.auto_boost && not r.fsm_0.sp_force_zero
          else (wires x.cfg_data).boost_manual);
  hb_cnt = (r.hb_cnt + 1) % 2 ^ 32;
}
