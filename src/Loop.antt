-- ===== src/Loop.antt =====
-- `run_loop` of model/coil_servo_model/loop.py: the plant, a controller and the output stage in a closed
-- loop. The arrays of SimResult are a list of points.
pub mod Driving
pub mod Closed
use coil_servo.Base.{
  ℕ, zero, suc, ◌+◌, ◌^◌, Bool, true, false, Option, none, some, List, [], ◌∷◌, Result, ok, err,
  Error, ◌>>=◌,
}
use coil_servo.Base.Int.{ℤ, pos, negsuc, ◌-ℤ◌, ◌<<ℤ◌, ◌>>ℤ◌}
use coil_servo.Floats.{Floats, quotient}
use coil_servo.Channels.{Channel}
use coil_servo.FloatModel.{FloatPi, step_float, output_mux, plant_step}
use coil_servo.Signal.Gain.{adc_quantize}
use coil_servo.Signal.Pi.{FixedPi, step}
use coil_servo.Signal.Mux.{output_mux_fixed}

module _ (R : Floats) where
  open R use {Float, sub, mul, div, of_ℕ, of_ℤ, round}

  -- `T_S`.
  abbrev pub t_s : Float
  t_s = div (of_ℕ 128) (of_ℕ 125000000)

  -- The two kinds of controller that `isinstance` tells apart.
  pub data Controller : Type 0 where
    floating : FloatPi R → Controller
    fixed : FixedPi → Controller

  -- `Plant`: the channel and the coil current.
  pub record Plant : Type 0 where
    pub ch : Channel R
    pub current : Float

  -- One entry of each array of `SimResult`.
  pub record Point : Type 0 where
    pub t : Float
    pub i : Float
    pub u : Float
    pub v1 : Float
    pub v2 : Float
    pub integrator : Float

  -- The arguments that stay the same through the run.
  pub record Setup : Type 0 where
    pub channel : Channel R
    pub deadband_counts : ℤ
    pub setpoint_fn : Float → Float
    pub boost_fn : Float → Bool
    pub substeps : ℕ

  -- What the controller's half of a tick gives: u, OUT1, OUT2, the integrator, and the controller.
  pub record Drive : Type 0 where
    pub u_norm : Float
    pub v1 : Float
    pub v2 : Float
    pub integ : Float
    pub next : Controller

  -- The branch for the fixed-point controller.
  unfoldable pub drive_fixed : Setup → Float → Float → FixedPi → Result Drive
  drive_fixed s sp_amps current c = do
    sp ← quotient R sp_amps s.channel.i_fs
    sp_code ← adc_quantize R sp
    meas ← quotient R current s.channel.i_fs
    meas_code ← adc_quantize R meas
    (u14, c') ← step c ((sp_code -ℤ meas_code) <<ℤ 7) false
    let (o1, o2) = output_mux_fixed u14 s.deadband_counts
    ok (record {
      u_norm = div (of_ℤ u14) (of_ℕ 8192);
      v1 = div (of_ℤ o1) (of_ℕ 8192);
      v2 = div (of_ℤ o2) (of_ℕ 8192);
      integ = div (of_ℤ (c'.acc >>ℤ c'.ki_shift)) (of_ℕ (2 ^ 20));
      next = fixed c';
    })

  -- The branch for the float controller.
  unfoldable pub drive_floating : Setup → Float → Float → FloatPi R → Result Drive
  drive_floating s sp_amps current c = do
    e ← quotient R (sub sp_amps current) s.channel.i_fs
    let (u, c') = step_float R c e false
    let (v1, v2) = output_mux R u (div (of_ℤ s.deadband_counts) (of_ℕ 8192))
    ok (record { u_norm = u; v1 = v1; v2 = v2; integ = c'.integrator; next = floating c' })

  unfoldable pub drive : Setup → Float → Float → Controller → Result Drive
  drive s sp_amps current (fixed c) = drive_fixed s sp_amps current c
  drive s sp_amps current (floating c) = drive_floating s sp_amps current c

  -- One round of the loop.
  unfoldable pub loop_tick : Setup → ℕ → Controller → Plant → Result (Point × Controller × Plant)
  loop_tick s k c p = do
    let t = mul (of_ℕ k) t_s
    d ← drive s (s.setpoint_fn t) p.current c
    current ← plant_step R p.ch p.current d.v1 d.v2 (s.boost_fn t) t_s s.substeps
    ok (
      record { t = t; i = current; u = d.u_norm; v1 = d.v1; v2 = d.v2; integrator = d.integ },
      d.next,
      record p { current = current },
    )

  -- The loop, from round `k` on.
  unfoldable pub loop_from :
      Setup → ℕ → ℕ → Controller → Plant → Result (List Point × Controller × Plant)
  loop_from s k zero c p = ok ([], c, p)
  loop_from s k (suc left) c p = do
    (point, c', p') ← loop_tick s k c p
    (points, c'', p'') ← loop_from s (k + 1) left c' p'
    ok (point ∷ points, c'', p'')

  -- `np.zeros(n)`, which refuses a negative length.
  abbrev pub rounds_of : ℤ → Result ℕ
  rounds_of (pos n) = ok n
  rounds_of (negsuc n) = err Error.value_error

  -- `plant`, or a fresh one at zero current.
  abbrev pub plant_or_new : Channel R → Option Plant → Plant
  plant_or_new ch none = record { ch = ch; current = of_ℕ 0 }
  plant_or_new ch (some p) = p

  unfoldable pub run_loop :
      Setup → Controller → Float → Option Plant → Result (List Point × Controller × Plant)
  run_loop s c t_end plant = do
    rounds ← round (div t_end t_s)
    n ← rounds_of rounds
    loop_from s 0 n c (plant_or_new s.channel plant)
