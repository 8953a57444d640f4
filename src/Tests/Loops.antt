-- ===== src/Tests/Loops.antt =====
-- The gains, the closed loop, the channel table and the settling time at concrete inputs, on whole
-- numbers in place of floats.
use coil_servo.Base.{
  ℕ, ◌≤◌, ◌≡◌, ◌≢◌, ◌⊎◌, refl, arith, true, false, inl, none, some, List, [], ◌∷◌, ok, err, Error,
}
use coil_servo.Base.Int.{ℤ, pos, IsSigned, neg, ◌*ℤ◌, ◌-ℤ◌}
use coil_servo.Floats.{IsOrdered, IsRounding, IsSound}
use coil_servo.Signal.Gain.{
  scaled, is_mantissa, encode_gain, scan_shifts, conclude, keep_best, gain_error,
}
use coil_servo.Signal.Gain.Best.{IsPreorder, IsMeasured}
use coil_servo.Signal.Gain.Choice.{IsChoice, encode_gain_nearest}
use coil_servo.Loop.{Setup, Controller, fixed, Plant, Point, run_loop}
use coil_servo.Loop.Closed.{IsSafeRun, run_loop_safe}
use coil_servo.Config.{
  basic_string, ChannelConfig, load_channel, check_rails, cfg_of, float_at, int_at, to_float,
  to_int, ticks, amps_to_counts,
}
use coil_servo.Analysis.{settling_time, last, last_true, at}
use coil_servo.Analysis.Settling.{IsSettled, settling_time_settles}
use coil_servo.Floats.{quotient}
use coil_servo.Tests.Floating.{whole, coil}
use coil_servo.Tests.Paths.{small_pi, small_pi-IsBounded}
use coil_servo.Tests.Benches.{mot_file}

whole-IsPreorder : IsPreorder whole
whole-IsPreorder = record {
  le_trans = λ x y z h k. ground arith;
  le_total = λ x y h k. ground arith;
}

whole-IsMeasured : (g : ℤ) → IsMeasured whole g
whole-IsMeasured g m s h = ground arith

encode_gain_nearest_example :
    ((mant : ℤ) × (shift : ℕ) × (encode_gain whole (pos 3) 2 ≡ ok (mant, shift))
      × (mant ≢ pos 0)
      × IsChoice whole (pos 3) 3 mant shift)
    ⊎ ((encode_gain whole (pos 3) 2 ≡ err Error.value_error)
        × (((s : ℕ) (m : ℤ) → s ≤ 3 → scaled whole (pos 3) s ≡ ok m → is_mantissa m ≡ true → ⊥)
            ⊎ ((shift : ℕ) × IsChoice whole (pos 3) 3 (pos 0) shift)))
encode_gain_nearest_example =
    encode_gain_nearest whole (pos 3) 2 whole-IsPreorder (whole-IsMeasured (pos 3)) refl
      (λ s h. (_, refl))

code-IsOrdered : (n : ℤ) → IsSigned 14 n → IsOrdered whole n
code-IsOrdered n h = ground arith

whole-IsSound : IsSound whole
whole-IsSound = record {
  le_zero = refl;
  code_ordered = code-IsOrdered;
  code_zero = refl;
  round_cases = λ x. inl (x, refl);
}

abbrev setup : Setup whole
setup = record {
  channel = coil;
  deadband_counts = pos 10;
  setpoint_fn = λ t. pos 5;
  boost_fn = λ t. false;
  substeps = 8;
}

run_loop_safe_example :
    ((x : List (Point whole) × Controller whole × Plant whole) × (run_loop whole setup
          (fixed small_pi)
          (pos 2)
          none
        ≡ ok x)
      × IsSafeRun whole (pos 100) 2 x)
    ⊎ ((e : Error) × (run_loop whole setup (fixed small_pi) (pos 2) none ≡ err e)
        × IsRounding whole e)
run_loop_safe_example =
    run_loop_safe whole whole-IsSound setup (omega arith) refl small_pi (pos 2) none 2
      (record { inductive = refl; inert = refl; stepped = refl }) small_pi-IsBounded refl

abbrev pub mot : ChannelConfig whole
mot = record {
  host = basic_string "rp-mot";
  i_fs = pos 10;
  i_rated = pos 9;
  cfg =
      ("kp_mant", pos 3)
      ∷ ("kp_shift", pos 0)
      ∷ ("ki_mant", pos 256)
      ∷ ("ki_shift", pos 0)
      ∷ ("out_clamp", pos 73728)
      ∷ ("deadband", pos 4)
      ∷ ("zero_win", pos 8192)
      ∷ ("zero_holdoff", pos 6)
      ∷ ("deadtime", pos 2000)
      ∷ ("settle", pos 3000)
      ∷ ("flip_timeout", pos 5000)
      ∷ ("dio_invert", pos 0)
      ∷ ("out2_invert", pos 1)
      ∷ ("boost_mode", pos 0)
      ∷ [];
}

mot_loads : load_channel whole "mot" mot_file ≡ ok mot
unfolding load_channel check_rails cfg_of float_at int_at to_float to_int ticks amps_to_counts
    quotient encode_gain scan_shifts conclude keep_best is_mantissa neg ◌*ℤ◌ gain_error ◌-ℤ◌
mot_loads = refl

abbrev times : List ℤ
times = pos 0 ∷ pos 1 ∷ pos 2 ∷ pos 3 ∷ pos 4 ∷ []

abbrev currents : List ℤ
currents = pos 0 ∷ pos 9 ∷ pos 30 ∷ pos 11 ∷ pos 10 ∷ []

settles : settling_time whole times currents (pos 10) (pos 1) ≡ ok (some (pos 3))
unfolding settling_time last last_true at ◌*ℤ◌ ◌-ℤ◌
settles = refl

settling_time_settles_example : (k : ℕ) × IsSettled whole times currents (pos 10) (pos 1) (pos 3) k
settling_time_settles_example =
    settling_time_settles whole times currents (pos 10) (pos 1) (pos 3) settles
