-- ===== src/Tests/Benches.antt =====
-- The host tools at concrete inputs, on a bench whose status block reads as zero and whose clock is
-- the word at address 0.
use Prim.Native.String.{String}
use coil_servo.Base.{
  ℕ, ◌+◌, ◌*◌, ◌≡◌, ◌≢◌, ◌<◌, refl, arith, true, ◌==◌, if◌then◌else◌, some, none, List, [], ◌∷◌,
  All, replicate, Result, ok, err, Error, unless_interrupted,
}
use coil_servo.Base.Int.{ℤ, pos}
use coil_servo.Base.Bits.Fields.{field_zero}
use coil_servo.Registers.{sts_fields, sts_base}
use coil_servo.Registers.Encode.{low_bits, decode}
use coil_servo.Registers.Parse.{parse_fields, parse_sts}
use coil_servo.Link.{Link, cfg_addr}
use coil_servo.Board.{Board, sts, assemble}
use coil_servo.Board.Write.{IsCoherent, register}
use coil_servo.Board.Apply.{apply_config_control_last}
use coil_servo.Config.{integer, floating_point, basic_string, Table}
use coil_servo.Config.Rails.{config_names}
use coil_servo.Bench.{Bench}
use coil_servo.Tools.Script.{◌>>=◌, from_result, reading}
use coil_servo.Tools.Methods.{Status, set_cfg, configured, get_sts, warn_flags, poll}
use coil_servo.Tools.Waiting.{Outcome, poll_ends}
use coil_servo.Tools.Check.{check_main}
use coil_servo.Tools.Check.Kept.{check_main_keeps}
use coil_servo.Tools.Step.{step_body, step_start}
use coil_servo.Tools.Transfer.{Numpy}
use coil_servo.Tools.Sweep.{sweep_loop, sweep_drive, sweep_body, sweep_start}
use coil_servo.Tools.Drive.Ends.{IsOff, Enabled, bit_of_control, enable_found}
use coil_servo.Tools.Sweep.Off.{sweep_drive-IsOff, step_unarmed, sweep_unarmed}
use coil_servo.Tests.Fixtures.{
  plain_link, word_at, no_words, limited, start_up, start_up-IsKnown, start_up-IsAllowed, different,
}
use coil_servo.Tests.Floating.{whole as floats}

abbrev pub idle_link : Link
idle_link = record plain_link {
  wire = record plain_link.wire {
    read_words = λ m a n. if a == sts_base then ok (replicate n 0) else plain_link.read_words m a n;
  };
  read_block = λ m. refl;
}

abbrev pub at_clock : (ℕ → ℕ) → ℕ → ℕ → ℕ
at_clock m t a = if a == 0 then t else m a

pub slept_keeps :
    (m : ℕ → ℕ) (d k : ℕ)
    → k < 16
    → word_at (at_clock m (m 0 + d)) (cfg_addr k) ≡ word_at m (cfg_addr k)
slept_keeps m d k h = ground arith

abbrev pub bench : Bench
bench = record {
  link = idle_link;
  pop_words = λ m a n. (ok (replicate n 0), m);
  sleep = λ d m. (ok tt, at_clock m (m 0 + d));
  now = λ m. m 0;
  pop_keeps = λ m a n k h. refl;
  sleep_keeps = slept_keeps;
  sleep_passes = λ m d h. omega arith;
}

abbrev pub idle : Board (ℕ → ℕ)
idle = limited

poll_ends_example :
    (out : Result (Unit {0}) × Board (ℕ → ℕ)) × (poll bench 4 3 none idle ≡ some out)
    × Outcome bench 3 none idle out
    × Unit {0}
poll_ends_example = poll_ends bench (λ b. Unit) 4 3 none idle (λ b u. tt) tt (omega arith)

abbrev pub mot_table : Table floats
mot_table =
    ("I_FS", floating_point (pos 10))
    ∷ ("I_rated", integer (pos 9))
    ∷ ("zero_win_amps", floating_point (pos 1))
    ∷ ("flip_timeout_us", floating_point (pos 5))
    ∷ ("kp", floating_point (pos 3))
    ∷ ("ki", floating_point (pos 2))
    ∷ ("deadband_counts", integer (pos 4))
    ∷ ("zero_holdoff_ticks", integer (pos 6))
    ∷ ("deadtime_us", floating_point (pos 2))
    ∷ ("settle_us", floating_point (pos 3))
    ∷ ("dio_invert", integer (pos 0))
    ∷ ("out2_invert", integer (pos 1))
    ∷ ("boost_mode", integer (pos 0))
    ∷ ("board_host", basic_string "rp-mot")
    ∷ []

abbrev pub mot_file : Result (List (String × Table floats))
mot_file = ok (("mot", mot_table) ∷ [])

names_apart : All (λ n. n ≢ "servo_enable") config_names
names_apart = (
  different "kp_mant" "servo_enable" refl,
  (
    different "kp_shift" "servo_enable" refl,
    (
      different "ki_mant" "servo_enable" refl,
      (
        different "ki_shift" "servo_enable" refl,
        (
          different "out_clamp" "servo_enable" refl,
          (
            different "deadband" "servo_enable" refl,
            (
              different "zero_win" "servo_enable" refl,
              (
                different "zero_holdoff" "servo_enable" refl,
                (
                  different "deadtime" "servo_enable" refl,
                  (
                    different "settle" "servo_enable" refl,
                    (
                      different "flip_timeout" "servo_enable" refl,
                      (
                        different "dio_invert" "servo_enable" refl,
                        (
                          different "out2_invert" "servo_enable" refl,
                          (different "boost_mode" "servo_enable" refl, tt),
                        ),
                      ),
                    ),
                  ),
                ),
              ),
            ),
          ),
        ),
      ),
    ),
  ),
)

check_main_keeps_example :
    register idle_link (check_main floats bench "mot" mot_file no_words).1 (bit_of_control 0)
    ≡ register idle_link no_words (bit_of_control 0)
check_main_keeps_example =
    check_main_keeps "servo_enable" (bit_of_control 0) enable_found bench floats "mot" mot_file
      no_words (different "led" "servo_enable" refl) names_apart

abbrev real_numpy : Numpy floats
real_numpy = record {
  Complex = ℤ;
  mean = λ xs. pos 0;
  spectrum = λ xs. ok xs;
  median = λ xs. pos 0;
  argmax = λ xs. ok 0;
  linspace = λ a b n. replicate n a;
  correlate = λ xs f fs. f;
  double_over = λ z m. z;
  quotient = λ z w. z;
  modulus = λ z. z;
  degrees = λ z. z;
  floor = λ x. x;
}

sweep_drive-IsOff_example :
    let (r, rows, b') = sweep_loop floats real_numpy bench 3 (pos 1) (pos 1) none [] idle in
    ((sweep_drive floats real_numpy bench 3 (pos 1) (pos 1) idle).0 ≡ unless_interrupted r)
    × ((sweep_drive floats real_numpy bench 3 (pos 1) (pos 1) idle).1 ≡ rows)
    × IsOff bench (sweep_drive floats real_numpy bench 3 (pos 1) (pos 1) idle).2
sweep_drive-IsOff_example = sweep_drive-IsOff floats real_numpy bench 3 (pos 1) (pos 1) idle

idle-IsCoherent : IsCoherent idle_link.wire idle
idle-IsCoherent = record { agrees = λ j hj. omega (arith, field_zero (32 * j) 32) }

set_up : (b1 : Board (ℕ → ℕ)) × (configured bench start_up idle ≡ (ok tt, b1))
unfolding configured
set_up =
    let done =
      apply_config_control_last idle_link idle start_up idle-IsCoherent (refl, (refl, tt))
        start_up-IsKnown start_up-IsAllowed in
    (done.3, done.8)

abbrev idle_status : Status
idle_status = (parse_fields 0 sts_fields, "IDLE")

warned : (b : Board (ℕ → ℕ)) → warn_flags bench b ≡ (ok (idle_status, []), b)
unfolding warn_flags get_sts reading from_result ◌>>=◌ sts parse_sts parse_fields sts_fields
    assemble low_bits decode
warned b = refl

step_unarmed_example :
    let b2 = (set_cfg bench (step_start true) set_up.0).1 in
    (step_body bench start_up true (pos 100) idle ≡ (err Error.system_exit, b2))
    × Enabled bench 1 b2
unfolding parse_fields sts_fields decode
step_unarmed_example =
    step_unarmed bench start_up true (pos 100) idle set_up.0 idle_status [] set_up.1 (warned _) refl

sweep_unarmed_example :
    let b2 = (set_cfg bench sweep_start set_up.0).1 in
    (sweep_body floats real_numpy bench 3 (pos 1) (pos 1) start_up idle
      ≡ (err Error.system_exit, b2))
    × Enabled bench 1 b2
unfolding parse_fields sts_fields decode
sweep_unarmed_example =
    sweep_unarmed bench floats real_numpy 3 (pos 1) (pos 1) start_up idle set_up.0 idle_status []
      set_up.1 (warned _) refl
