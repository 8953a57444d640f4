-- ===== src/FloatModel.antt =====
-- The floating-point reference: model/coil_servo_model/pi.py and plant.py.
pub mod Bounds
use coil_servo.Base.{
  ℕ, zero, suc, ◌≡◌, Bool, true, false, not, ◌&&◌, if◌then◌else◌, same_bool, Result, ok, err, Error,
  ◌>>=◌,
}
use coil_servo.Floats.{Floats, quotient}
use coil_servo.Channels.{Channel, r_loop}

module _ (R : Floats) where
  open R use {Float, add, sub, mul, minus, lt, le, eq, of_ℕ}

  -- `Q320_LIMIT`.
  abbrev pub q320_limit : Float
  q320_limit = of_ℕ 8

  -- `_clip`.
  unfoldable pub clip : Float → Float → Float → Float
  clip x low high = if lt x low then low else if lt high x then high else x

  pub record FloatPi : Type 0 where
    pub kp : Float
    pub ki_tick : Float
    pub clamp : Float
    pub integrator : Float

  -- `FloatPI.clear`.
  unfoldable pub clear_float : FloatPi → FloatPi
  clear_float c = record c { integrator = of_ℕ 0 }

  -- `FloatPI.step`.
  unfoldable pub step_float : FloatPi → Float → Bool → Float × FloatPi
  step_float c e hold =
      let p = clip (mul c.kp e) (minus q320_limit) q320_limit in
      let u_raw = clip (add p c.integrator) (minus q320_limit) q320_limit in
      let u = clip u_raw (minus c.clamp) c.clamp in
      let engaged = not (eq u u_raw) in
      let next = clip (add c.integrator (mul c.ki_tick e)) (minus q320_limit) q320_limit in
      let pushes = engaged && same_bool (lt (of_ℕ 0) e) (lt (of_ℕ 0) u_raw) in
      (u, if not hold && not pushes then record c { integrator = next } else c)

  -- `output_mux`.
  unfoldable pub output_mux : Float → Float → Float × Float
  output_mux u deadband =
      if lt deadband u
      then (u, of_ℕ 0)
      else if lt u (minus deadband)
      then (of_ℕ 0, minus u)
      else (of_ℕ 0, of_ℕ 0)

  -- Python's `min` and `max`.
  abbrev pub min_float : Float → Float → Float
  min_float x y = if lt y x then y else x

  abbrev pub max_float : Float → Float → Float
  max_float x y = if lt x y then y else x

  -- `-(I * ch.R_loop) / ch.L`.
  abbrev pub decay : Channel R → Float → Result Float
  decay ch current = quotient R (minus (mul current (r_loop R ch))) ch.l

  unfoldable pub pass_slope : Channel R → Float → Float → Float → Result Float
  pass_slope ch v_avail v_out1 current = do
    let target = mul ch.g_pass v_out1
    wanted ← quotient R (sub target current) ch.tau_inner
    limit ← quotient R (sub (sub v_avail (mul current (r_loop R ch))) ch.v_ds_min) ch.l
    passive ← decay ch current
    ok (max_float (min_float wanted limit) passive)

  -- The branch of the clamp that pulls towards a current.
  unfoldable pub sink_slope : Channel R → Float → Float → Result Float
  sink_slope ch v_out2 current = do
    let target = sub current (mul ch.g_clamp v_out2)
    wanted ← quotient R (sub target current) ch.tau_inner
    limit ← quotient R (minus (add ch.v_clamp (mul current (r_loop R ch)))) ch.l
    passive ← decay ch current
    ok (min_float (max_float wanted limit) passive)

  unfoldable pub clamp_slope : Channel R → Float → Float → Result Float
  clamp_slope ch v_out2 current =
      let v_rev = mul ch.v_clamp (min_float v_out2 (of_ℕ 1)) in
      if ch.clamp_is_voltage_mode
      then quotient R (minus (add v_rev (mul current (r_loop R ch)))) ch.l
      else sink_slope ch v_out2 current

  -- `dIdt` in one round of `Plant.step`.
  unfoldable pub slope : Channel R → Float → Float → Float → Float → Result Float
  slope ch v_avail v_out1 v_out2 current =
      if lt (of_ℕ 0) v_out1 && le v_out2 (of_ℕ 0)
      then pass_slope ch v_avail v_out1 current
      else if lt (of_ℕ 0) v_out2 && le v_out1 (of_ℕ 0)
      then clamp_slope ch v_out2 current
      else if le v_out1 (of_ℕ 0) && le v_out2 (of_ℕ 0)
      then decay ch current
      else err Error.assertion_error

  -- The rounds of `Plant.step`, with the current at the end.
  unfoldable pub substeps_from :
      Channel R → Float → Float → Float → Float → ℕ → Float → Result Float
  substeps_from ch v_avail h v_out1 v_out2 zero current = ok current
  substeps_from ch v_avail h v_out1 v_out2 (suc left) current =
      slope ch v_avail v_out1 v_out2 current >>= λ didt.
      substeps_from ch v_avail h v_out1 v_out2 left (add current (mul h didt))

  -- `Plant.step`.
  unfoldable pub plant_step : Channel R → Float → Float → Float → Bool → Float → ℕ → Result Float
  plant_step ch current v_out1 v_out2 boost dt substeps = quotient R dt (of_ℕ substeps) >>= λ h.
      substeps_from ch (if boost then ch.v_boost else ch.v_rail) h v_out1 v_out2 substeps current
