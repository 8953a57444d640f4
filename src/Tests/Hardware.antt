-- ===== src/Tests/Hardware.antt =====
-- The modules of the hardware and their benches at concrete inputs.
use coil_servo.Base.{
  ℕ, zero, suc, ◌+◌, ◌≤◌, ◌≡◌, refl, arith, false, true, List, [], ◌∷◌, replicate, ok, All,
}
use coil_servo.Base.Int.{pos, negsuc, IsSigned}
use coil_servo.Hdl.FlipFsm
use coil_servo.Hdl.FlipFsm.{State, Inputs, reset_fsm, in_window}
use coil_servo.Hdl.FlipFsm.Outputs as Fsm
use coil_servo.Hdl.FlipFsm.Monitor.{Monitor, IsDriven, start, watch, watch_passes}
use coil_servo.Hdl.FlipFsm.Window.{streak, bridge_opens_at_zero}
use coil_servo.Hdl.FlipFsm.Stops.{IsStopping, sample_count, stop_ends}
use coil_servo.Hdl.FlipFsm.Turns.{IsTurning, flip_ends}
use coil_servo.Hdl.Decimator.{DecimatorInputs}
use coil_servo.Hdl.ErrorPath.{ErrorInputs}
use coil_servo.Hdl.OutputMux.{MuxInputs}
use coil_servo.Hdl.Pi.{PiInputs, reset_pi}
use coil_servo.Sim.PiBench.{PiDut, Gains, Event, bit_exact_against_model}
use coil_servo.Sim.PiBench.Passes.{bit_exact_passes}
use coil_servo.Sim.DecimatorBench.{DecimatorDut, matches_model}
use coil_servo.Sim.DecimatorBench.Passes.{decimator_bench_passes}
use coil_servo.Sim.ErrorBench.{ErrorDut, error_matches_model, error_bench_passes}
use coil_servo.Sim.MuxBench.{MuxDut, mux_matches_model, mux_bench_passes}
use coil_servo.Signal.Path.{Sample}

-- An armed and enabled servo on a sample in the window, and the inputs of a flip and of a stop.
abbrev small_tick : Inputs
small_tick = record {
  aresetn = true;
  servo_enable = true;
  armed = true;
  flip_req = false;
  flip_fault_ack = false;
  tick = true;
  i_meas = pos 5;
  zero_win = 41;
  zero_holdoff = 1;
  deadtime = 2;
  settle = 1;
  flip_timeout = 0;
}

abbrev ask : Inputs
ask = record small_tick { flip_req = true }

abbrev stop_tick : Inputs
stop_tick = record small_tick { servo_enable = false }

All-replicate : {A : Type 0} (P : A → Type 0) (x : A) (n : ℕ) → P x → All P (replicate n x)
All-replicate P x zero h = tt
All-replicate P x (suc n) h = (h, All-replicate P x n h)

-- Arming, a request, and the whole turn.
abbrev turning : List Inputs
turning = small_tick ∷ ask ∷ replicate 12 small_tick

watch_passes_example : (m : Monitor) × (watch 2 (start reset_fsm) reset_fsm turning ≡ ok m)
watch_passes_example =
    watch_passes 2 turning
      ((refl, refl), ((refl, refl), All-replicate (IsDriven 2) small_tick 12 (refl, refl)))

bridge_opens_at_zero_example :
    (small_tick.tick ≡ true)
    × (in_window small_tick ≡ true)
    × (1 ≤ streak 0 (small_tick ∷ ask ∷ []) + 1)
unfolding Fsm.run FlipFsm.clock
bridge_opens_at_zero_example =
    bridge_opens_at_zero (small_tick ∷ ask ∷ []) small_tick refl refl refl

stop_tick-IsStopping : IsStopping 1 2 stop_tick
unfolding in_window
stop_tick-IsStopping = record {
  up = refl;
  low = refl;
  small = refl;
  same_holdoff = refl;
  same_deadtime = refl;
}

stop_ends_example :
    let s = Fsm.run (Fsm.run reset_fsm (small_tick ∷ [])) (replicate 15 stop_tick) in
    (s.state ≡ State.idle) × (s.bridge_en ≡ false)
unfolding sample_count
stop_ends_example =
    stop_ends 1 2 (small_tick ∷ []) (replicate 15 stop_tick)
      (All-replicate (IsStopping 1 2) stop_tick 15 stop_tick-IsStopping) (omega arith) (omega arith)
      (omega arith)

small_tick-IsTurning : IsTurning 1 2 1 small_tick
unfolding in_window
small_tick-IsTurning = record {
  up = refl;
  enabled = refl;
  single = refl;
  small = refl;
  patient = refl;
  same_holdoff = refl;
  same_deadtime = refl;
  same_settle = refl;
}

flip_ends_example :
    let s = Fsm.run reset_fsm (small_tick ∷ []) in
    let t = Fsm.run (FlipFsm.clock ask s) (replicate 11 small_tick) in
    (t.state ≡ State.running)
    × (t.bridge_en ≡ true)
    × (t.sp_force_zero ≡ false)
    × (t.polarity ≡ true)
unfolding sample_count Fsm.run FlipFsm.clock
flip_ends_example =
    flip_ends 1 2 1 (small_tick ∷ []) ask (replicate 11 small_tick) refl (refl, refl, refl, refl)
      (All-replicate (IsTurning 1 2 1) small_tick 11 small_tick-IsTurning) (omega arith)
      (omega arith)

-- A controller in some state, and a set of gains with an error at the rail, a hold and a clear.
abbrev pi_inputs : PiInputs
pi_inputs = record {
  aresetn = true;
  tick = false;
  e = pos 7;
  kp_mant = pos 1;
  kp_shift = 0;
  ki_mant = pos 1;
  ki_shift = 0;
  clamp = 3;
  int_hold = false;
  int_clear = false;
}

abbrev pi_dut : PiDut
pi_dut = record { regs = record reset_pi { acc = pos 9 }; sampled = pi_inputs; driven = pi_inputs }

abbrev one_set : List (Gains × List Event)
one_set =
    (
      record { kp_m = negsuc 1233; kp_s = 3; ki_m = pos 517; ki_s = 20 },
      record { e = pos 2097151; hold = false; clears = false }
          ∷ record { e = negsuc 99; hold = true; clears = false }
          ∷ record { e = pos 100; hold = false; clears = true }
          ∷ [],
    )
    ∷ []

bit_exact_passes_example : (d' : PiDut) × (bit_exact_against_model 6554 pi_dut one_set ≡ ok d')
bit_exact_passes_example =
    bit_exact_passes 6554 pi_dut one_set (omega arith)
      ((record { kp_fits = omega arith; ki_fits = omega arith }, omega arith), tt)

abbrev decimator_dut : DecimatorDut
decimator_dut =
    let x : DecimatorInputs = record { aresetn = true; in_valid = true; e_fast = pos 3 } in
    record {
      regs = record { acc = pos 4; count = 5; e_out = pos 6; out_valid = true };
      sampled = x;
      driven = x;
    }

decimator_bench_passes_example :
    matches_model 1 (replicate 128 (negsuc 16383)) decimator_dut ≡ ok tt
decimator_bench_passes_example =
    decimator_bench_passes 1 (replicate 128 (negsuc 16383)) decimator_dut refl
      (All-replicate (IsSigned 15) (negsuc 16383) 128 (omega arith))

abbrev far_sample : Sample
far_sample = record {
  meas_code = negsuc 8191;
  in2_code = pos 100;
  sp_reg = pos 8191;
  sp_source = true;
  sp_force_zero = false;
  polarity = true;
}

abbrev error_dut : ErrorDut
error_dut =
    let x : ErrorInputs = record {
      aresetn = true;
      meas = pos 1;
      in2 = pos 2;
      sp_reg = pos 3;
      sp_source = false;
      sp_force_zero = false;
      polarity = false;
    } in
    record {
      regs = record { e_fast = pos 4; sp_active = pos 5; sp_sign_mismatch = true };
      sampled = x;
      driven = x;
    }

error_bench_passes_example :
    (d' : ErrorDut) × (error_matches_model (far_sample ∷ []) error_dut ≡ ok d')
error_bench_passes_example =
    error_bench_passes error_dut (far_sample ∷ [])
      (record { meas_fits = omega arith; in2_fits = omega arith; sp_fits = omega arith }, tt)

abbrev mux_dut : MuxDut
mux_dut =
    let x : MuxInputs = record {
      aresetn = true;
      enable = false;
      u14 = pos 1;
      deadband = 2;
      out2_invert = true;
    } in
    record { regs = record { out1 = pos 3; out2 = pos 4 }; sampled = x; driven = x }

mux_bench_passes_example :
    (d' : MuxDut) × (mux_matches_model ((negsuc 8191, 0) ∷ (pos 9, 8) ∷ []) mux_dut ≡ ok d')
mux_bench_passes_example =
    mux_bench_passes mux_dut ((negsuc 8191, 0) ∷ (pos 9, 8) ∷ []) (omega arith)
