-- ===== src/Tests/Tops.antt =====
-- The whole top at concrete inputs.
use coil_servo.Base.{
  ℕ, ◌+◌, ◌*◌, ◌^◌, ◌≤◌, ◌≡◌, ◌⊎◌, ◌↔◌, refl, arith, false, true, [], ◌∷◌, ok, All, if◌then◌else◌,
}
use coil_servo.Base.Int.{pos, negsuc, ◌>>ℤ◌}
use coil_servo.Capture.{unpack_sample}
use coil_servo.Registers.Pack.{pack_cfg}
use coil_servo.Registers.Parse.{parse_sts}
use coil_servo.Hdl.FlipFsm.{reset_fsm}
use coil_servo.Hdl.Pi.{reset_pi}
use coil_servo.Hdl.OutputMux.Codes.{codes}
use coil_servo.Hdl.Top.{TopRegs, TopInputs, clock, next_boost, meas_code, in2_code}
use coil_servo.Hdl.Top.Config.{wires}
use coil_servo.Hdl.Top.Config.Written.{wire_values, IsCarried, cfg_reaches_wires}
use coil_servo.Hdl.Top.Safety.{IsSafe, run, dac-IsSafe}
use coil_servo.Hdl.Top.Boost.{with_setpoint, boost_sticks}
use coil_servo.Hdl.Top.Status.{sts_data, status_of, state_label}
use coil_servo.Hdl.Top.Status.ReadBack.{sts_readback}
use coil_servo.Hdl.Top.Stream.{m01_axis_tdata, stream_readback}
use coil_servo.Tests.Fixtures.{start_up, start_up-IsKnown}

-- A servo in RUN with the boost on that has measured 62.5 A, and registers that a reset must clear.
abbrev busy : TopRegs
busy = record {
  meta_fault = true;
  meta_arm = true;
  meta_flip = false;
  fault = false;
  armed = true;
  sync_flip = false;
  flip_prev = false;
  valid_r = true;
  meas_r = pos 7;
  err_0 = record { e_fast = pos 1; sp_active = pos 100; sp_sign_mismatch = false };
  dec_e = record { acc = pos 3; count = 4; e_out = pos 5; out_valid = true };
  dec_i = record { acc = pos 3; count = 4; e_out = pos 524288; out_valid = true };
  fsm_0 = record reset_fsm { sp_force_zero = false };
  pi_0 = record reset_pi { u14 = pos 8000 };
  u_drive = pos 8000;
  mux_0 = record { out1 = pos 8000; out2 = pos 0 };
  auto_boost = true;
  boost_o = true;
  hb_cnt = 9;
}

-- A clamp of 100 counts, and the open loop with the setpoint register.
abbrev driving : TopInputs
driving = record {
  aresetn = true;
  s_axis_tdata = 0x1234_5678;
  s_axis_tvalid = true;
  cfg_data = 100 * 2 ^ 192 + 3000 * 2 ^ 32 + 2 ^ 16 + 2 ^ 2 + 1;
  flip_req_i = false;
  arm_i = true;
  fault_i = false;
}

abbrev resetting : TopInputs
resetting = record driving { aresetn = false }

abbrev capturing : TopInputs
capturing = record driving { cfg_data = 2 ^ 17 }

dac-IsSafe_example :
    let s = run (clock resetting busy) (driving ∷ driving ∷ driving ∷ []) in
    IsSafe 100 (codes s.mux_0)
    × ((s.fsm_0.bridge_en ≡ true) ⊎ (codes (clock driving s).mux_0 ≡ (pos 0, pos 0)))
unfolding wires
dac-IsSafe_example =
    dac-IsSafe 100 busy resetting driving (driving ∷ driving ∷ driving ∷ []) (omega arith) refl
      (refl, (refl, (refl, tt)))

boost_sticks_example :
    ((next_boost driving (with_setpoint (pos 100) busy) ≡ false) ↔ (11200 ≤ 524288))
    × (next_boost driving (with_setpoint (negsuc 99) busy) ≡ true)
boost_sticks_example =
    boost_sticks driving busy 99 refl refl refl refl refl (omega arith) (omega arith)

sts_readback_example :
    let s = run (clock resetting busy) (driving ∷ driving ∷ []) in
    parse_sts (sts_data s + 16384 * 2 ^ 160) ≡ ok (status_of s 16384, state_label s.fsm_0.state)
sts_readback_example = sts_readback busy resetting (driving ∷ driving ∷ []) 16384 refl (omega arith)

cfg_reaches_wires_example :
    (word : ℕ) × (pack_cfg start_up ≡ ok word) × All (IsCarried (wire_values (wires word))) start_up
cfg_reaches_wires_example = cfg_reaches_wires start_up (refl, (refl, tt)) start_up-IsKnown

stream_readback_example :
    let s = run (clock resetting busy) (driving ∷ driving ∷ []) in
    unpack_sample (wires capturing.cfg_data).capture_sel (m01_axis_tdata capturing s) ≡ (
      if (wires capturing.cfg_data).capture_sel
      then (s.dec_i.e_out >>ℤ 6, s.dec_e.e_out >>ℤ 6)
      else (meas_code capturing, in2_code capturing))
stream_readback_example = stream_readback busy resetting capturing (driving ∷ driving ∷ []) refl
