-- ===== src/Config.antt =====
-- host/coil_servo_host/config.py: a channel's table of physical values becomes register values. What
-- `tomllib` reads is a parameter: the tables of the file, or the exception of opening or parsing it.
pub mod Rails
use Prim.Native.String.{String}
use coil_servo.Base.{
  ℕ, Bool, true, false, not, ◌&&◌, if◌then◌else◌, bool_to_ℕ, Option, none, some, List, [], ◌∷◌,
  Result, ok, err, Error, guard, ◌>>=◌, ◌>>◌,
}
use coil_servo.Base.Int.{ℤ, pos}
use coil_servo.Base.Dict.{lookup}
use coil_servo.Floats.{Floats, quotient}
use coil_servo.Signal.Gain.{encode_gain}
use coil_servo.Loop.{t_s}

module _ (R : Floats) where
  open R use {Float, mul, div, lt, le, of_ℕ, of_ℤ, round, truncate, float_of_text, int_of_text}

  -- A value of a TOML table.
  pub data Toml : Type 0 where
    integer : ℤ → Toml
    floating_point : Float → Toml
    basic_string : String → Toml
    boolean : Bool → Toml

  abbrev pub Table : Type 0
  Table = List (String × Toml)

  -- `table[key]`.
  abbrev pub entry_of : {A : Type 0} → String → List (String × A) → Result A
  entry_of key table = elim (lookup key table) [ none ↦ err Error.key_error | some v ↦ ok v ]

  -- `float(v)` and `int(v)`.
  unfoldable pub to_float : Toml → Result Float
  to_float (integer n) = ok (of_ℤ n)
  to_float (floating_point x) = ok x
  to_float (basic_string s) = float_of_text s
  to_float (boolean b) = ok (of_ℕ (bool_to_ℕ b))

  unfoldable pub to_int : Toml → Result ℤ
  to_int (integer n) = ok n
  to_int (floating_point x) = truncate x
  to_int (basic_string s) = int_of_text s
  to_int (boolean b) = ok (pos (bool_to_ℕ b))

  -- `float(table[key])` and `int(table[key])`.
  unfoldable pub float_at : Table → String → Result Float
  unfolding to_float
  float_at table key = entry_of key table >>= to_float

  unfoldable pub int_at : Table → String → Result ℤ
  unfolding to_int
  int_at table key = entry_of key table >>= to_int

  unfoldable pub amps_to_counts : Float → Float → Result ℤ
  amps_to_counts amps i_fs = quotient R amps i_fs >>= λ x. round (mul x (of_ℕ 8192))

  -- `ticks`, with TICK_NS.
  unfoldable pub ticks : Float → Result ℤ
  ticks us = round (div (mul us (of_ℕ 1000)) (of_ℕ 8))

  -- What `load_channel` returns.
  pub record ChannelConfig : Type 0 where
    pub host : Toml
    pub i_fs : Float
    pub i_rated : Float
    pub cfg : List (String × ℤ)

  -- The checks of `load_channel`, on the values in the order that it reads them.
  unfoldable pub check_rails : Table → Float → Float → Result (Unit {0})
  check_rails table i_fs i_rated = do
    guard (lt (of_ℕ 0) i_rated && le i_rated i_fs) Error.value_error
    zero_win ← float_at table "zero_win_amps"
    guard (not (le zero_win (of_ℕ 0))) Error.value_error
    timeout ← float_at table "flip_timeout_us"
    guard (not (le timeout (of_ℕ 0))) Error.value_error

  -- `cfg`, the keyword arguments in their order.
  unfoldable pub cfg_of : Table → Float → Result (List (String × ℤ))
  cfg_of table i_fs = do
    kp ← float_at table "kp"
    (kp_mant, kp_shift) ← encode_gain R kp 5
    ki ← float_at table "ki"
    (ki_mant, ki_shift) ← encode_gain R (mul ki (t_s R)) 6
    rated ← float_at table "I_rated"
    out_clamp ← amps_to_counts rated i_fs
    deadband ← int_at table "deadband_counts"
    win ← float_at table "zero_win_amps"
    zero_win ← amps_to_counts win i_fs
    zero_holdoff ← int_at table "zero_holdoff_ticks"
    deadtime_us ← float_at table "deadtime_us"
    deadtime ← ticks deadtime_us
    settle_us ← float_at table "settle_us"
    settle ← ticks settle_us
    timeout_us ← float_at table "flip_timeout_us"
    flip_timeout ← ticks timeout_us
    dio_invert ← int_at table "dio_invert"
    out2_invert ← int_at table "out2_invert"
    boost_mode ← int_at table "boost_mode"
    ok (
        ("kp_mant", kp_mant)
        ∷ ("kp_shift", pos kp_shift)
        ∷ ("ki_mant", ki_mant)
        ∷ ("ki_shift", pos ki_shift)
        ∷ ("out_clamp", out_clamp)
        ∷ ("deadband", deadband)
        ∷ ("zero_win", zero_win)
        ∷ ("zero_holdoff", zero_holdoff)
        ∷ ("deadtime", deadtime)
        ∷ ("settle", settle)
        ∷ ("flip_timeout", flip_timeout)
        ∷ ("dio_invert", dio_invert)
        ∷ ("out2_invert", out2_invert)
        ∷ ("boost_mode", boost_mode)
        ∷ [])

  unfoldable pub load_channel : String → Result (List (String × Table)) → Result ChannelConfig
  load_channel name file = do
    tables ← file
    table ← entry_of name tables
    i_fs ← float_at table "I_FS"
    i_rated ← float_at table "I_rated"
    checked ← check_rails table i_fs i_rated
    cfg ← cfg_of table i_fs
    host ← entry_of "board_host" table
    rated ← float_at table "I_rated"
    ok (record { host = host; i_fs = i_fs; i_rated = rated; cfg = cfg })
