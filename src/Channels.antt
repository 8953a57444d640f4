-- ===== src/Channels.antt =====
-- model/coil_servo_model/channels.py: the parameters of the coil channels.
use Prim.Native.String.{String}
use coil_servo.Base.{Bool, false, if◌then◌else◌, List, [], ◌∷◌, Result, ◌>>=◌}
use coil_servo.Base.Int.{ℤ}
use coil_servo.Floats.{Floats, quotient}

module _ (R : Floats) where
  open R use {Float, add, mul, div, eq, of_ℕ, decimal, round, pi}

  -- `Channel`.
  pub record Channel : Type 0 where
    pub name : String
    pub l : Float
    pub r_coil : Float
    pub r_extra : Float
    pub i_rated : Float
    pub v_rail : Float
    pub v_boost : Float
    pub v_clamp : Float
    pub v_ds_min : Float
    pub i_fs : Float
    pub g_pass : Float
    pub g_clamp : Float
    pub tau_inner : Float
    pub clamp_is_voltage_mode : Bool

  -- `Channel.R_loop`.
  abbrev pub r_loop : Channel → Float
  r_loop ch = add ch.r_coil ch.r_extra

  -- `Channel.__post_init__`.
  unfoldable pub filled : Channel → Channel
  filled ch =
      let i_fs = if eq ch.i_fs (of_ℕ 0) then mul (decimal 125 2) ch.i_rated else ch.i_fs in
      record ch {
        i_fs = i_fs;
        g_pass = if eq ch.g_pass (of_ℕ 0) then i_fs else ch.g_pass;
        g_clamp = if eq ch.g_clamp (of_ℕ 0) then i_fs else ch.g_clamp;
      }

  -- `Channel(…)` with the five arguments that have no default.
  unfoldable pub new_channel : String → Float → Float → Float → Float → Channel
  unfolding filled
  new_channel name l r_coil r_extra i_rated = filled (record {
    name = name;
    l = l;
    r_coil = r_coil;
    r_extra = r_extra;
    i_rated = i_rated;
    v_rail = of_ℕ 3;
    v_boost = of_ℕ 15;
    v_clamp = of_ℕ 30;
    v_ds_min = decimal 5 1;
    i_fs = of_ℕ 0;
    g_pass = of_ℕ 0;
    g_clamp = of_ℕ 0;
    tau_inner = decimal 16 7;
    clamp_is_voltage_mode = false;
  })

  -- `Channel.f_pole`.
  unfoldable pub f_pole : Channel → Result Float
  f_pole ch = quotient R (r_loop ch) (mul (mul (of_ℕ 2) pi) ch.l)

  -- `Channel.amps_per_lsb`.
  unfoldable pub amps_per_lsb : Channel → Float
  amps_per_lsb ch = div ch.i_fs (of_ℕ 8192)

  -- `Channel.clamp_counts`.
  unfoldable pub clamp_counts : Channel → Result ℤ
  clamp_counts ch = quotient R ch.i_rated ch.i_fs >>= λ x. round (mul x (of_ℕ 8192))

  -- `CHANNELS`.
  unfoldable pub channels : List (String × Channel)
  channels =
      ("mot", new_channel "mot" (decimal 16 6) (decimal 64 4) (decimal 56 4) (of_ℕ 100))
      ∷ ("z_shim", new_channel "z_shim" (decimal 29 6) (decimal 116 4) (decimal 60 4) (of_ℕ 60))
      ∷ ("x_shim", new_channel "x_shim" (decimal 57 6) (decimal 142 4) (decimal 60 4) (of_ℕ 60))
      ∷ ("y_shim", new_channel "y_shim" (decimal 57 6) (decimal 142 4) (decimal 60 4) (of_ℕ 60))
      ∷ []
