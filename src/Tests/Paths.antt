-- ===== src/Tests/Paths.antt =====
-- The signal path at concrete inputs.
use coil_servo.Base.{
  ℕ, zero, suc, ◌≡◌, refl, ap, arith, Bool, false, true, List, [], ◌∷◌, map, length, replicate, ok,
  All,
}
use coil_servo.Base.Int.{ℤ, pos, neg, negsuc, ◌+ℤ◌, ◌-ℤ◌, ◌*ℤ◌, ◌>>ℤ◌, ◌≤ℤ◌, pos_part, neg_part}
use coil_servo.Signal.Sat.{sat}
use coil_servo.Signal.Decimator.{fresh, push_all}
use coil_servo.Signal.Decimator.Blocks.{block_sums, leftover}
use coil_servo.Signal.Pi.{FixedPi, p_term, i_term, u24_of, u14_pre, next_acc, run}
use coil_servo.Signal.Pi.Clamp.{IsWithin, IsValid, run-IsWithin}
use coil_servo.Signal.Pi.Windup.{no_windup}
use coil_servo.Signal.Mux.{output_mux_fixed}
use coil_servo.Signal.Path.{Sample, IsCoded, fast_error, unheld, IsBounded, IsExclusive, path_total}

-- A controller with a clamp of 100 counts, and one that has run into it.
abbrev pub small_pi : FixedPi
small_pi = record {
  kp_mant = pos 1000;
  kp_shift = 2;
  ki_mant = pos 50;
  ki_shift = 10;
  clamp = pos 100;
  acc = pos 0;
  p = pos 0;
  i = pos 0;
  u24 = pos 0;
  u14 = pos 0;
}

small_pi-IsValid : IsValid small_pi
small_pi-IsValid = record { acc_fits = omega arith; clamp_nonneg = omega arith }

abbrev three_errors : List (ℤ × Bool)
three_errors = (pos 2000000, false) ∷ (negsuc 4, true) ∷ (negsuc 2000000, false) ∷ []

run-IsWithin_example :
    (us : List ℤ) × (c' : FixedPi) × (run small_pi three_errors ≡ ok (us, c'))
    × (length us ≡ length three_errors)
    × All (IsWithin (pos 100)) us
    × IsValid c'
run-IsWithin_example = run-IsWithin small_pi three_errors small_pi-IsValid (omega arith)

-- The output before the clamp, when the accumulator is zero.
pre_at :
    (e x : ℤ) → p_term small_pi e ≡ x → u14_pre small_pi e ≡ (sat (x +ℤ pos 0) 24 +ℤ pos 64) >>ℤ 7
unfolding u14_pre u24_of i_term sat ◌>>ℤ◌ ◌+ℤ◌ ◌-ℤ◌ neg
pre_at e x p = ap (λ (y : ℤ). (sat (y +ℤ pos 0) 24 +ℤ pos 64) >>ℤ 7) p

far_out : u14_pre small_pi (pos 2000000) ≡ pos 65536
unfolding p_term sat neg ◌>>ℤ◌ ◌*ℤ◌ ◌+ℤ◌ ◌-ℤ◌
far_out = pre_at (pos 2000000) (pos 8388607) refl

no_windup_example : next_acc small_pi (pos 2000000) false ≤ℤ pos 0
no_windup_example =
    (no_windup small_pi (pos 2000000) false (omega arith) (omega arith) (omega arith)).0
      (omega (arith, ap pos_part far_out, ap neg_part far_out))

abbrev fast_errors : List ℤ
fast_errors = replicate 130 (pos 3)

abbrev sample : Sample
sample = record {
  meas_code = pos 100;
  in2_code = pos 130;
  sp_reg = pos 0;
  sp_source = false;
  sp_force_zero = false;
  polarity = false;
}

sample-IsCoded : IsCoded sample
sample-IsCoded = record { meas_fits = omega arith; in2_fits = omega arith; sp_fits = omega arith }

abbrev samples : List Sample
samples = replicate 256 sample

samples-IsCoded : (n : ℕ) → All IsCoded (replicate n sample)
samples-IsCoded zero = tt
samples-IsCoded (suc n) = (sample-IsCoded, samples-IsCoded n)

pub small_pi-IsBounded : IsBounded small_pi
small_pi-IsBounded = record { valid = small_pi-IsValid; clamp_fits = omega arith }

path_total_example :
    (us : List ℤ) × (c' : FixedPi) × (push_all fresh (map fast_error samples)
      ≡ ok (block_sums 2 (map fast_error samples), leftover 2 (map fast_error samples)))
    × (run small_pi (map unheld (block_sums 2 (map fast_error samples))) ≡ ok (us, c'))
    × (length us ≡ 2)
    × All (λ u. IsExclusive (output_mux_fixed u (pos 10))) us
path_total_example =
    path_total 2 samples small_pi (pos 10) (samples-IsCoded 256) (omega arith) (omega arith)
      small_pi-IsBounded (omega arith)
