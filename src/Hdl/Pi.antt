-- ===== src/Hdl/Pi.antt =====
-- modules/servo_pi.v: the PI controller, four clocks to a tick. The wires are functions of the
-- registers and inputs, and `clock` is the clocked block.
pub mod Values
pub mod Stages
pub mod Exact
use coil_servo.Base.{ℕ, ◌^◌, Bool, true, false, not, ◌&&◌, ◌||◌, if◌then◌else◌, same_bool}
use coil_servo.Base.Int.{ℤ, pos, ◌+ℤ◌, ◌*ℤ◌, ◌>>ℤ◌, neg, ltb_ℤ}
use coil_servo.Hdl.Wires.{as_signed}

pub data Stage : Type 0 where
  idle mul shift sum out : Stage

pub record PiRegs : Type 0 where
  pub state : Stage
  pub e_r : ℤ
  pub p_full : ℤ
  pub ki_prod : ℤ
  pub p_term : ℤ
  pub i_term : ℤ
  pub u24 : ℤ
  pub acc : ℤ
  pub u14 : ℤ
  pub out_sat : Bool

pub record PiInputs : Type 0 where
  pub aresetn : Bool
  pub tick : Bool
  pub e : ℤ
  pub kp_mant : ℤ
  pub kp_shift : ℕ
  pub ki_mant : ℤ
  pub ki_shift : ℕ
  pub clamp : ℕ
  pub int_hold : Bool
  pub int_clear : Bool

-- The functions take words of 49 bits.
unfoldable pub sat24 : ℤ → ℤ
sat24 x =
    if ltb_ℤ (pos 8388607) x
    then pos 8388607
    else if ltb_ℤ x (neg (pos 8388608))
    then neg (pos 8388608)
    else as_signed 24 x

unfoldable pub sat48 : ℤ → ℤ
sat48 x =
    if ltb_ℤ (pos 140737488355327) x
    then pos 140737488355327
    else if ltb_ℤ x (neg (pos 140737488355328))
    then neg (pos 140737488355328)
    else as_signed 48 x

-- The wires.
unfoldable pub sum_pi : PiRegs → ℤ
sum_pi r = as_signed 25 (r.p_term +ℤ r.i_term)

unfoldable pub acc_next : PiRegs → ℤ
acc_next r = as_signed 49 (r.acc +ℤ r.ki_prod)

unfoldable pub u14_wire : ℤ → ℤ
u14_wire u24 = as_signed 18 (as_signed 25 (u24 +ℤ pos 64) >>ℤ 7)

unfoldable pub clamp_s : ℕ → ℤ
clamp_s clamp = as_signed 18 (pos clamp)

unfoldable pub clamp_pos : ℕ → ℤ
clamp_pos clamp = as_signed 14 (pos clamp)

unfoldable pub above : ℤ → ℕ → Bool
above u24 clamp = ltb_ℤ (clamp_s clamp) (u14_wire u24)

unfoldable pub below : ℤ → ℕ → Bool
below u24 clamp = ltb_ℤ (u14_wire u24) (as_signed 18 (neg (clamp_s clamp)))

unfoldable pub engaged : ℤ → ℕ → Bool
engaged u24 clamp = above u24 clamp || below u24 clamp

unfoldable pub windup_skip : PiInputs → PiRegs → Bool
windup_skip x r = engaged r.u24 x.clamp && same_bool (ltb_ℤ (pos 0) r.e_r) (ltb_ℤ (pos 0) r.u24)

-- The reset branch.
abbrev pub reset_pi : PiRegs
reset_pi = record {
  state = Stage.idle;
  e_r = pos 0;
  p_full = pos 0;
  ki_prod = pos 0;
  p_term = pos 0;
  i_term = pos 0;
  u24 = pos 0;
  acc = pos 0;
  u14 = pos 0;
  out_sat = false;
}

-- What S_OUT assigns to `u14`.
unfoldable pub clamp_out : ℤ → ℕ → ℤ
clamp_out u24 clamp =
    if above u24 clamp
    then clamp_pos clamp
    else if below u24 clamp
    then as_signed 14 (neg (clamp_pos clamp))
    else as_signed 14 (u14_wire u24)

-- The `case` statement: it reads the registers `r` as they were, and assigns over `w`, which has
-- what `int_clear` does.
unfoldable pub stage_case : Stage → PiInputs → PiRegs → PiRegs → PiRegs
stage_case Stage.idle x r w = if x.tick then record w { e_r = x.e; state = Stage.mul } else w
stage_case Stage.mul x r w = record w {
  p_full = as_signed 40 (r.e_r *ℤ x.kp_mant);
  ki_prod = as_signed 40 (r.e_r *ℤ x.ki_mant);
  state = Stage.shift;
}
stage_case Stage.shift x r w = record w {
  p_term = sat24 (as_signed 49 (r.p_full >>ℤ x.kp_shift));
  i_term = sat24 (as_signed 49 (r.acc >>ℤ x.ki_shift));
  state = Stage.sum;
}
stage_case Stage.sum x r w = record w { u24 = sat24 (as_signed 49 (sum_pi r)); state = Stage.out }
stage_case Stage.out x r w = record w {
  u14 = clamp_out r.u24 x.clamp;
  out_sat = engaged r.u24 x.clamp;
  acc =
      if not x.int_hold && (not x.int_clear && not (windup_skip x r))
      then sat48 (acc_next r)
      else w.acc;
  state = Stage.idle;
}

-- `if (int_clear) acc <= 48'sd0`.
abbrev pub after_clear : PiInputs → PiRegs → PiRegs
after_clear x r = record r { acc = if x.int_clear then pos 0 else r.acc }

-- One rising edge of `aclk`.
unfoldable pub clock : PiInputs → PiRegs → PiRegs
clock x r = if not x.aresetn then reset_pi else stage_case r.state x r (after_clear x r)
