-- ===== src/Hdl/Top/Status.antt =====
-- The status block of cores/coil_servo_top.v, as `parse_sts` reads it.
use Prim.Native.String.{String}
pub mod Table
pub mod ReadBack
use native.Mathlib.Nat.{one-le-pow}
use coil_servo.Base.{
  ◌-◌, ◌>>=◌, ◌∙◌, ap, ℕ, suc, ◌+◌, ◌*◌, ◌/◌, ◌%◌, ◌^◌, ◌≤◌, ◌<◌, ◌≡◌, refl, arith, Bool, true,
  false, ◌||◌, List, [], ◌∷◌, bool_to_ℕ, Result, ok,
}
use coil_servo.Base.Int.{ℤ, pos, neg, eqb_ℤ, IsSigned, neg_parts}
use coil_servo.Base.Bits.Fields.{field}
use coil_servo.Registers.{Field, place, sts_fields}
use coil_servo.Registers.Encode.{decode, low_bits, low_bits-lt, decode-encode, lo, hi, IsEncodable}
use coil_servo.Registers.Parse.{parse_fields, parse_sts, item, state_name}
use coil_servo.Hdl.FlipFsm.{State}
use coil_servo.Hdl.Top.{TopRegs}

-- `{1'b0, state}`.
abbrev pub state_code : State → ℕ
state_code State.idle = 0
state_code State.running = 1
state_code State.ramp = 2
state_code State.dis = 3
state_code State.flip = 4
state_code State.en = 5
state_code State.settling = 6
state_code State.thold = 7

-- `timeout_hold` and `int_railed`.
abbrev pub timeout_hold : State → Bool
timeout_hold State.thold = true
timeout_hold State.idle = false
timeout_hold State.running = false
timeout_hold State.ramp = false
timeout_hold State.dis = false
timeout_hold State.flip = false
timeout_hold State.en = false
timeout_hold State.settling = false

abbrev pub int_railed : ℤ → Bool
int_railed acc = eqb_ℤ acc (pos 140737488355327) || eqb_ℤ acc (neg (pos 140737488355328))

-- Eleven numbers at their places in the block.
abbrev pub words : (s b4 b5 b6 b7 b8 b9 b10 b11 i sp u hb : ℕ) → ℕ
words s b4 b5 b6 b7 b8 b9 b10 b11 i sp u hb =
    s
    + b4 * 2 ^ 4
    + b5 * 2 ^ 5
    + b6 * 2 ^ 6
    + b7 * 2 ^ 7
    + b8 * 2 ^ 8
    + b9 * 2 ^ 9
    + b10 * 2 ^ 10
    + b11 * 2 ^ 11
    + i * 2 ^ 32
    + sp * 2 ^ 64
    + u * 2 ^ 96
    + hb * 2 ^ 128

-- `sts_data`.
unfoldable pub sts_data : TopRegs → ℕ
sts_data r =
    words (state_code r.fsm_0.state) (bool_to_ℕ r.fault) (bool_to_ℕ r.fsm_0.bridge_en)
      (bool_to_ℕ r.fsm_0.polarity) (bool_to_ℕ r.armed) (bool_to_ℕ r.pi_0.out_sat)
      (bool_to_ℕ (int_railed r.pi_0.acc)) (bool_to_ℕ r.err_0.sp_sign_mismatch)
      (bool_to_ℕ (timeout_hold r.fsm_0.state)) (low_bits r.dec_i.e_out 22)
      (low_bits r.err_0.sp_active 14) (low_bits r.pi_0.u14 14) r.hb_cnt

-- The state by the name of the register map.
abbrev pub state_label : State → String
state_label State.idle = "IDLE"
state_label State.running = "RUN"
state_label State.ramp = "RAMP_DOWN"
state_label State.dis = "DISABLE"
state_label State.flip = "FLIP"
state_label State.en = "ENABLE"
state_label State.settling = "SETTLE"
state_label State.thold = "TIMEOUT_HOLD"

-- What the registers say, under the names of the register map.
abbrev pub status_of : TopRegs → ℕ → List (String × ℤ)
status_of r fifo_count =
    ("fsm_state", pos (state_code r.fsm_0.state))
    ∷ ("fault", pos (bool_to_ℕ r.fault))
    ∷ ("bridge_en", pos (bool_to_ℕ r.fsm_0.bridge_en))
    ∷ ("polarity", pos (bool_to_ℕ r.fsm_0.polarity))
    ∷ ("armed", pos (bool_to_ℕ r.armed))
    ∷ ("out_sat", pos (bool_to_ℕ r.pi_0.out_sat))
    ∷ ("int_railed", pos (bool_to_ℕ (int_railed r.pi_0.acc)))
    ∷ ("sp_sign_mismatch", pos (bool_to_ℕ r.err_0.sp_sign_mismatch))
    ∷ ("timeout_hold", pos (bool_to_ℕ (timeout_hold r.fsm_0.state)))
    ∷ ("i_meas", r.dec_i.e_out)
    ∷ ("sp_active", r.err_0.sp_active)
    ∷ ("u14", r.pi_0.u14)
    ∷ ("heartbeat", pos r.hb_cnt)
    ∷ ("fifo_count", pos fifo_count)
    ∷ []
