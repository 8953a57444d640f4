-- ===== src/Tools/Step.antt =====
-- host/coil_servo_host/step.py: the capture of a step response.
use Prim.Native.String.{String}
use coil_servo.Base.{ℕ, ◌+◌, Bool, true, not, if◌then◌else◌, List, [], ◌∷◌, Result, guard, Error}
use coil_servo.Base.Int.{ℤ, pos, ◌+ℤ◌}
use coil_servo.Capture.{unpack}
use coil_servo.Floats.{Floats, quotient}
use coil_servo.Config.{Table, ChannelConfig, load_channel}
use coil_servo.Bench.{Bench}
use coil_servo.Tools.Script.{Script, ◌>>=◌, pure, from_result}
use coil_servo.Tools.Methods.{Host, set_cfg, pulsed, wait, popped, fifo_addr}
use coil_servo.Tools.Session.{with_channel}
use coil_servo.Tools.Drive.{start_drive, drive_off}

-- `b.write_cfg(sp_source=1, setpoint=0, open_loop=…, servo_enable=1)`.
abbrev pub step_start : Bool → List (String × ℤ)
step_start open_loop =
    ("sp_source", pos 1)
    ∷ ("setpoint", pos 0)
    ∷ ("open_loop", pos (if open_loop then 1 else 0))
    ∷ ("servo_enable", pos 1)
    ∷ []

module _ (W : Bench) where
  -- From the restart of the capture to the end of the `with`.
  unfoldable pub record_step : ℤ → Script (Host W) (List ℕ)
  record_step sp_counts = do
    u ← wait W 50000
    u ← set_cfg W (("capture_sel", pos 1) ∷ [])
    u ← pulsed W "fifo_rst"
    u ← wait W 2000
    u ← set_cfg W (("setpoint", sp_counts) ∷ [])
    u ← wait W 20000
    raw ← popped W fifo_addr 16384
    u ← set_cfg W (("setpoint", pos 0) ∷ [])
    u ← wait W 50000
    u ← set_cfg W drive_off
    pure raw

  -- The body of the `with`.
  unfoldable pub step_body : List (String × ℤ) → Bool → ℤ → Script (Host W) (List ℕ)
  unfolding record_step
  step_body cfg open_loop sp_counts = do
    u ← start_drive W cfg (step_start open_loop)
    record_step sp_counts

module _ (R : Floats) where
  open R use {Float, mul, div, lt, magnitude, of_ℕ, of_ℤ, round}

  -- `FS_DEC`.
  abbrev pub fs_dec : Float
  fs_dec = div (of_ℕ 125000000) (of_ℕ 128)

  -- A row of the file: the time, the measured current and the setpoint.
  pub record StepRow : Type 0 where
    pub t_s : Float
    pub i_amps : Float
    pub setpoint_amps : Float

  -- The rows from sample `k` on.
  unfoldable pub step_rows : Float → ℕ → List (ℤ × ℤ) → List StepRow
  step_rows scale k [] = []
  step_rows scale k ((i, e) ∷ samples) =
      record {
        t_s = div (of_ℕ k) fs_dec;
        i_amps = mul (of_ℤ i) scale;
        setpoint_amps = mul (of_ℤ (e +ℤ i)) scale;
      }
      ∷ step_rows scale (k + 1) samples

  module _ (W : Bench) where
    open W.link use {Memory}

    -- `main`, from the channel.
    unfoldable pub step_channel : Float → Bool → ChannelConfig R → Script Memory (List StepRow)
    unfolding step_rows
    step_channel amps open_loop ch = do
      u ← from_result (guard (not (lt ch.i_rated (magnitude amps))) Error.system_exit)
      sp_norm ← from_result (quotient R amps ch.i_fs)
      sp_counts ← from_result (round (mul sp_norm (of_ℕ 8192)))
      raw ← with_channel W R ch (step_body W ch.cfg open_loop sp_counts)
      pure (step_rows (div ch.i_fs (of_ℕ 16384)) 0 (unpack true raw))

    unfoldable pub step_main :
        String → Result (List (String × Table R)) → Float → Bool → Script Memory (List StepRow)
    unfolding step_channel
    step_main name file amps open_loop = do
      ch ← from_result (load_channel R name file)
      step_channel amps open_loop ch
