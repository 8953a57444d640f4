-- ===== src/Hdl/Top/Stream.antt =====
-- The monitor stream of cores/coil_servo_top.v, which fills the capture FIFO, as `capture` reads it.
use coil_servo.Base.{
  ℕ, ◌+◌, ◌*◌, ◌/◌, ◌%◌, ◌^◌, ◌≡◌, ◌∙◌, ap, arith, false, List, if◌then◌else◌, Bool-cases, inl, inr,
}
use coil_servo.Base.Int.{ℤ, pos, negsuc, ◌>>ℤ◌, IsSigned, >>ℤ_parts}
use coil_servo.Base.Bits.Fields.{field}
use coil_servo.Registers.Encode.{low_bits}
use coil_servo.Capture.{unpack_sample, unpack_sample_packed, column_14}
use coil_servo.Hdl.Wires.{as_signed}
use coil_servo.Hdl.Top.{TopRegs, TopInputs, clock, meas_code, in2_code}
use coil_servo.Hdl.Top.Safety.{run}
use coil_servo.Hdl.Top.Sizes.{reset-IsSized, run-IsSized}
use coil_servo.Hdl.Top.Config.{wires, signed_at}

-- `m01_axis_tdata`: the raw samples, or the upper 16 bits of the decimated error and current.
unfoldable pub m01_axis_tdata : TopInputs → TopRegs → ℕ
m01_axis_tdata x r =
    if (wires x.cfg_data).capture_sel
    then field (low_bits r.dec_i.e_out 22) 6 16 + 2 ^ 16 * field (low_bits r.dec_e.e_out 22) 6 16
    else x.s_axis_tdata

-- The upper 16 bits of a word of 22 are those of the shifted integer.
upper_bits : (v : ℤ) → field (low_bits v 22) 6 16 ≡ low_bits (v >>ℤ 6) 16
unfolding low_bits ◌>>ℤ◌
upper_bits (pos n) = omega arith
upper_bits (negsuc n) = omega arith

shifted_fits : (v : ℤ) → IsSigned 22 v → IsSigned 16 (v >>ℤ 6)
shifted_fits v h = omega (arith, >>ℤ_parts v 6)

column_slice : (n : ℕ) → column_14 n ≡ signed_at n 0 14
unfolding column_14 as_signed low_bits
column_slice n = ground arith

fast_sample : (t : ℕ) → unpack_sample false t ≡ (signed_at t 0 14, signed_at t 16 14)
unfolding unpack_sample
fast_sample t =
    let low : field (t % 2 ^ 16) 0 14 ≡ field t 0 14 = omega arith in
    let high : field (t / 2 ^ 16 % 2 ^ 16) 0 14 ≡ field t 16 14 = omega arith in
    let slice = λ (n : ℕ). as_signed 14 (pos n) in
    λ i. (
      (column_slice (t % 2 ^ 16) ∙ ap slice low) i,
      (column_slice (t / 2 ^ 16 % 2 ^ 16) ∙ ap slice high) i,
    )

stream_of_IsSized :
    (x : TopInputs) (r : TopRegs)
    → IsSigned 22 r.dec_i.e_out
    → IsSigned 22 r.dec_e.e_out
    → unpack_sample (wires x.cfg_data).capture_sel (m01_axis_tdata x r) ≡ (
        if (wires x.cfg_data).capture_sel
        then (r.dec_i.e_out >>ℤ 6, r.dec_e.e_out >>ℤ 6)
        else (meas_code x, in2_code x))
unfolding m01_axis_tdata
stream_of_IsSized x r hi he = elim (Bool-cases (wires x.cfg_data).capture_sel) [
  | inl slow ↦
      rw (slow, upper_bits r.dec_i.e_out, upper_bits r.dec_e.e_out)
        ((unpack_sample_packed (r.dec_i.e_out >>ℤ 6) (r.dec_e.e_out >>ℤ 6) 0 0 (omega arith)
            (omega arith)).0
          (shifted_fits r.dec_i.e_out hi) (shifted_fits r.dec_e.e_out he))
  | inr fast ↦ rw fast (fast_sample x.s_axis_tdata)
]

-- From any registers, after an edge in reset and any inputs, what `capture` makes of a word of the
-- stream: with capture_sel the decimated current and error without their six lowest bits, and without
-- it the measured code and that of IN2.
pub stream_readback :
    (r : TopRegs) (x y : TopInputs) (xs : List TopInputs)
    → x.aresetn ≡ false
    → let s = run (clock x r) xs in
      unpack_sample (wires y.cfg_data).capture_sel (m01_axis_tdata y s) ≡ (
        if (wires y.cfg_data).capture_sel
        then (s.dec_i.e_out >>ℤ 6, s.dec_e.e_out >>ℤ 6)
        else (meas_code y, in2_code y))
stream_readback r x y xs down =
    let z = run-IsSized xs (clock x r) (reset-IsSized x r down) in
    stream_of_IsSized y (run (clock x r) xs) z.current_fits z.error_fits
