-- ===== src/Hdl/Top/Config.antt =====
-- The slices of the configuration block that cores/coil_servo_top.v takes, bit for bit.
pub mod Written
use Prim.Native.String.{String}
use coil_servo.Base.{ℕ, ◌≡◌, Bool, List, [], ◌∷◌, ◌==◌, bool_to_ℕ}
use coil_servo.Base.Int.{ℤ, pos}
use coil_servo.Base.Bits.Fields.{field}
use coil_servo.Hdl.Wires.{as_signed}

pub record CfgWires : Type 0 where
  pub servo_enable : Bool
  pub int_clear_host : Bool
  pub sp_source : Bool
  pub fifo_rst : Bool
  pub out2_invert : Bool
  pub boost_mode : Bool
  pub boost_manual : Bool
  pub flip_fault_ack : Bool
  pub led_o : ℕ
  pub open_loop : Bool
  pub capture_sel : Bool
  pub sp_reg : ℤ
  pub kp_mant : ℤ
  pub kp_shift : ℕ
  pub ki_mant : ℤ
  pub ki_shift : ℕ
  pub out_clamp : ℕ
  pub deadband : ℕ
  pub zero_win : ℕ
  pub zero_holdoff : ℕ
  pub deadtime : ℕ
  pub settle : ℕ
  pub flip_timeout : ℕ
  pub dio_invert : ℕ

-- `cfg_data[i]`, `cfg_data[hi:lo]` with its width, and a slice on a signed wire.
abbrev pub bit_at : ℕ → ℕ → Bool
bit_at word i = field word i 1 == 1

abbrev pub signed_at : ℕ → ℕ → ℕ → ℤ
signed_at word lo width = as_signed width (pos (field word lo width))

unfoldable pub wires : ℕ → CfgWires
wires cfg_data = record {
  servo_enable = bit_at cfg_data 0;
  int_clear_host = bit_at cfg_data 1;
  sp_source = bit_at cfg_data 2;
  fifo_rst = bit_at cfg_data 3;
  out2_invert = bit_at cfg_data 4;
  boost_mode = bit_at cfg_data 5;
  boost_manual = bit_at cfg_data 6;
  flip_fault_ack = bit_at cfg_data 7;
  led_o = field cfg_data 8 8;
  open_loop = bit_at cfg_data 16;
  capture_sel = bit_at cfg_data 17;
  sp_reg = signed_at cfg_data 32 14;
  kp_mant = signed_at cfg_data 64 18;
  kp_shift = field cfg_data 96 5;
  ki_mant = signed_at cfg_data 128 18;
  ki_shift = field cfg_data 160 6;
  out_clamp = field cfg_data 192 14;
  deadband = field cfg_data 224 14;
  zero_win = field cfg_data 256 14;
  zero_holdoff = field cfg_data 288 16;
  deadtime = field cfg_data 320 16;
  settle = field cfg_data 352 32;
  flip_timeout = field cfg_data 384 32;
  dio_invert = field cfg_data 416 3;
}
