-- ===== src/Tools/Sweep.antt =====
-- host/coil_servo_host/sweep.py: the swept-sine measurement. The rows are those of the file it writes.
pub mod Off
use Prim.Native.String.{String}
use coil_servo.Base.{
  ℕ, zero, suc, Bool, true, false, not, if◌then◌else◌, Option, none, some, List, [], ◌∷◌, ◌++◌, map,
  Result, ok, err, Error, unless_interrupted,
}
use coil_servo.Base.Int.{ℤ, pos, ◌+ℤ◌}
use coil_servo.Floats.{Floats}
use coil_servo.Config.{Table, ChannelConfig, load_channel}
use coil_servo.Bench.{Bench}
use coil_servo.Tools.Script.{Script, ◌>>=◌, pure, from_result}
use coil_servo.Tools.Methods.{Host, set_cfg, wait, capture}
use coil_servo.Tools.Session.{with_channel}
use coil_servo.Tools.Drive.{start_drive, drive_off}
use coil_servo.Tools.Step.{fs_dec}
use coil_servo.Tools.Transfer.{Numpy, Estimate, estimate_tf}

-- `b.write_cfg(sp_source=0, open_loop=1, servo_enable=1)`.
abbrev pub sweep_start : List (String × ℤ)
sweep_start = ("sp_source", pos 0) ∷ ("open_loop", pos 1) ∷ ("servo_enable", pos 1) ∷ []

module _ (R : Floats) where
  open R use {Float}

  -- A row of the file.
  pub record SweepRow : Type 0 where
    pub f_hz : Float
    pub mag : Float
    pub phase_deg : Float
    pub stim_amps : Float

module _ (R : Floats) (N : Numpy R) (W : Bench) where
  open R use {Float, add, sub, mul, div, lt, magnitude, of_ℕ, of_ℤ, decimal}
  open W.link use {Memory}

  -- `estimate_tf` of the two columns: the stimulus is their sum.
  abbrev pub estimate_of : List (ℤ × ℤ) → Result (Option (Estimate R N))
  estimate_of samples =
      estimate_tf R N (map (λ p. add (of_ℤ p.1) (of_ℤ p.0)) samples) (map (λ p. of_ℤ p.0) samples)
        (fs_dec R)

  -- `last_f is not None and abs(f0 - last_f) < 0.02 * last_f`.
  unfoldable pub is_repeated : Option Float → Float → Bool
  is_repeated none f0 = false
  is_repeated (some last) f0 = lt (magnitude (sub f0 last)) (mul (decimal 2 2) last)

  -- What a round makes of the estimate: a row, or nothing and a pause.
  unfoldable pub judge_estimate :
      Float → Float → Option Float → Option (Estimate R N) → Option (SweepRow R)
  unfolding is_repeated
  judge_estimate scale min_stim last none = none
  judge_estimate scale min_stim last (some e) =
      if lt (mul e.amp scale) min_stim
      then none
      else if is_repeated last e.f0
      then none
      else some (record {
        f_hz = e.f0;
        mag = N.modulus e.h;
        phase_deg = N.degrees e.h;
        stim_amps = mul e.amp scale;
      })

  -- `time.sleep(0.2)` on a round that gives no row.
  unfoldable pub pause_unless : Option (SweepRow R) → Script (Host W) (Unit {0})
  pause_unless none = wait W 200000
  pause_unless (some row) = pure tt

  -- One round of the loop.
  unfoldable pub sweep_round : Float → Float → Option Float → Script (Host W) (Option (SweepRow R))
  unfolding judge_estimate pause_unless
  sweep_round scale min_stim last = do
    samples ← capture W true 1000000
    found ← from_result (estimate_of samples)
    let row = judge_estimate scale min_stim last found
    u ← pause_unless row
    pure row

  abbrev pub last_of : Option Float → Option (SweepRow R) → Option Float
  last_of last none = last
  last_of last (some row) = some row.f_hz

  abbrev pub with_row : List (SweepRow R) → Option (SweepRow R) → List (SweepRow R)
  with_row rows none = rows
  with_row rows (some row) = rows ++ (row ∷ [])

  -- The loop, which only an exception ends: Ctrl-C after `rounds` rounds, or an earlier one. The rows
  -- written stay written.
  unfoldable pub sweep_loop :
      ℕ
      → Float
      → Float
      → Option Float
      → List (SweepRow R)
      → Host W
      → Result (Unit {0}) × List (SweepRow R) × Host W
  unfolding sweep_round
  sweep_loop zero scale min_stim last rows b = (err Error.keyboard_interrupt, rows, b)
  sweep_loop (suc rounds) scale min_stim last rows b =
      let (r, b') = sweep_round scale min_stim last b in
      elim r [
        | err e ↦ (err e, rows, b')
        | ok row ↦ sweep_loop rounds scale min_stim (last_of last row) (with_row rows row) b'
      ]

  -- The `try` with its `except` and `finally`: the exception of the `finally` comes first.
  unfoldable pub sweep_drive :
      ℕ → Float → Float → Host W → Result (Unit {0}) × List (SweepRow R) × Host W
  unfolding sweep_loop
  sweep_drive rounds scale min_stim b =
      let (r, rows, b') = sweep_loop rounds scale min_stim none [] b in
      let (off, b'') = set_cfg W drive_off b' in
      (elim off [ err e ↦ err e | ok u ↦ unless_interrupted r ], rows, b'')

  -- The body of the `with`.
  unfoldable pub sweep_body :
      ℕ → Float → Float → List (String × ℤ) → Script (Host W) (List (SweepRow R))
  unfolding sweep_drive
  sweep_body rounds scale min_stim cfg = do
    u ← start_drive W cfg sweep_start
    λ b.
        let (r, rows, b') = sweep_drive rounds scale min_stim b in
        (elim r [ err e ↦ err e | ok u ↦ ok rows ], b')

  unfoldable pub sweep_main :
      ℕ → String → Result (List (String × Table R)) → Float → Script Memory (List (SweepRow R))
  unfolding sweep_body
  sweep_main rounds name file min_stim = do
    ch ← from_result (load_channel R name file)
    with_channel W R ch (sweep_body rounds (div ch.i_fs (of_ℕ 16384)) min_stim ch.cfg)
