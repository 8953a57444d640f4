-- ===== src/Hdl/Top/Status/ReadBack.antt =====
-- The host reads back what the hardware holds.
use Prim.Native.String.{String}
use native.Mathlib.Nat.{one-le-pow}
use coil_servo.Base.{
  ◌-◌, ◌>>=◌, ◌∙◌, ℕ, suc, ◌+◌, ◌*◌, ◌^◌, ◌≤◌, ◌<◌, ◌≡◌, refl, arith, Bool, true, false, List, ◌∷◌,
  bool_to_ℕ, Result, ok,
}
use coil_servo.Base.Int.{ℤ, pos, IsSigned, neg_parts}
use coil_servo.Registers.{sts_fields}
use coil_servo.Registers.Encode.{decode, low_bits, low_bits-lt, decode-encode, lo, hi, IsEncodable}
use coil_servo.Registers.Parse.{parse_fields, parse_sts, item, state_name}
use coil_servo.Hdl.FlipFsm.{State}
use coil_servo.Hdl.Top.{TopRegs, TopInputs, clock}
use coil_servo.Hdl.Top.Safety.{run}
use coil_servo.Hdl.Top.Sizes.{IsSized, reset-IsSized, run-IsSized}
use coil_servo.Hdl.Top.Status.{
  state_code, timeout_hold, int_railed, sts_data, state_label, status_of,
}
use coil_servo.Hdl.Top.Status.Table.{table_lem}

bool-le : (b : Bool) → bool_to_ℕ b ≤ 1
bool-le true = omega arith
bool-le false = omega arith

state_code-lt : (s : State) → state_code s < 8
state_code-lt s = ground arith

signed_range : (v : ℤ) (m : ℕ) → IsSigned (suc m) v → IsEncodable v (suc m) true
unfolding lo hi
signed_range v m h =
    ground (arith, neg_parts (pos (2 ^ (suc m - 1))), one-le-pow (suc m - 1) 2 (omega arith))

-- What `parse_sts` does with the values of the table.
abbrev named_status : List (String × ℤ) → Result (List (String × ℤ) × String)
named_status out = do
  state ← item "fsm_state" out
  name ← state_name (low_bits state 3)
  ok (out, name)

-- A signed field gives its register back.
signed_back : (v : ℤ) (m : ℕ) → IsSigned (suc m) v → decode (low_bits v (suc m)) (suc m) true ≡ v
signed_back v m h = decode-encode v m true (signed_range v m h)

named :
    (s : State) (rest : List (String × ℤ))
    → named_status (("fsm_state", pos (state_code s)) ∷ rest)
      ≡ ok (("fsm_state", pos (state_code s)) ∷ rest, state_label s)
unfolding low_bits
named State.idle rest = refl
named State.running rest = refl
named State.ramp rest = refl
named State.dis rest = refl
named State.flip rest = refl
named State.en rest = refl
named State.settling rest = refl
named State.thold rest = refl

module _ (r : TopRegs) (fifo_count : ℕ) (z : IsSized r) (hf : fifo_count < 2 ^ 32) where
  abbrev whole : ℕ
  whole = sts_data r + fifo_count * 2 ^ 160

  status_lem : parse_fields whole sts_fields ≡ status_of r fifo_count
  unfolding sts_data
  status_lem =
      table_lem (state_code r.fsm_0.state) (bool_to_ℕ r.fault) (bool_to_ℕ r.fsm_0.bridge_en)
        (bool_to_ℕ r.fsm_0.polarity) (bool_to_ℕ r.armed) (bool_to_ℕ r.pi_0.out_sat)
        (bool_to_ℕ (int_railed r.pi_0.acc)) (bool_to_ℕ r.err_0.sp_sign_mismatch)
        (bool_to_ℕ (timeout_hold r.fsm_0.state)) (low_bits r.dec_i.e_out 22)
        (low_bits r.err_0.sp_active 14) (low_bits r.pi_0.u14 14) r.hb_cnt fifo_count
        (state_code-lt r.fsm_0.state) (bool-le r.fault) (bool-le r.fsm_0.bridge_en)
        (bool-le r.fsm_0.polarity) (bool-le r.armed) (bool-le r.pi_0.out_sat)
        (bool-le (int_railed r.pi_0.acc)) (bool-le r.err_0.sp_sign_mismatch)
        (bool-le (timeout_hold r.fsm_0.state)) (low_bits-lt r.dec_i.e_out 22)
        (low_bits-lt r.err_0.sp_active 14) (low_bits-lt r.pi_0.u14 14) z.count_fits hf
      ∙ rw
          (
            signed_back r.dec_i.e_out 21 z.current_fits,
            signed_back r.err_0.sp_active 13 z.setpoint_fits,
            signed_back r.pi_0.u14 13 z.output_fits,
          )
          refl

readback_of_IsSized :
    (r : TopRegs) (fifo_count : ℕ)
    → IsSized r
    → fifo_count < 2 ^ 32
    → parse_sts (sts_data r + fifo_count * 2 ^ 160)
      ≡ ok (status_of r fifo_count, state_label r.fsm_0.state)
unfolding parse_sts
readback_of_IsSized r fifo_count z hf = rw (status_lem r fifo_count z hf) (named r.fsm_0.state _)

-- From any registers, after an edge in reset and any inputs: `parse_sts` of the status block, under
-- the word of the FIFO count that stands above it, raises nothing, each name has the value of its
-- register, with its sign, and the name of the state is that of the state of the machine.
pub sts_readback :
    (r : TopRegs) (x : TopInputs) (xs : List TopInputs) (fifo_count : ℕ)
    → x.aresetn ≡ false
    → fifo_count < 2 ^ 32
    → let s = run (clock x r) xs in
      parse_sts (sts_data s + fifo_count * 2 ^ 160)
      ≡ ok (status_of s fifo_count, state_label s.fsm_0.state)
sts_readback r x xs fifo_count down hf =
    readback_of_IsSized (run (clock x r) xs) fifo_count
      (run-IsSized xs (clock x r) (reset-IsSized x r down)) hf
