-- ===== src/Signal/Gain.antt =====
-- The functions of model/coil_servo_model/fixed_point.py on floats: the ADC's quantization and the
-- gains as mantissa and shift.
pub mod Best
pub mod Choice
use coil_servo.Base.{
  ℕ, zero, suc, ◌+◌, ◌-◌, ◌^◌, Bool, true, ◌&&◌, ◌||◌, if◌then◌else◌, Option, none, some, Result,
  ok, err, Error, ◌>>=◌,
}
use coil_servo.Base.Int.{ℤ, pos, neg, ltb_ℤ, leb_ℤ, eqb_ℤ}
use coil_servo.Floats.{Floats}
use coil_servo.Signal.Sat.{sat}

-- `-(1 << 17) <= mant < (1 << 17)`.
unfoldable pub is_mantissa : ℤ → Bool
is_mantissa mant = leb_ℤ (neg (pos (2 ^ 17))) mant && ltb_ℤ mant (pos (2 ^ 17))

module _ (R : Floats) where
  open R use {Float, sub, mul, div, le, eq, of_ℕ, of_ℤ, magnitude, round}

  unfoldable pub adc_quantize : Float → Result ℤ
  adc_quantize value = round (mul value (of_ℕ 8192)) >>= λ code. ok (sat code 14)

  unfoldable pub decode_gain : ℤ → ℕ → Float
  decode_gain mant shift = div (of_ℤ mant) (of_ℕ (2 ^ shift))

  -- `round(g * (1 << shift))`, and how far the result is from the gain.
  abbrev pub scaled : Float → ℕ → Result ℤ
  scaled g shift = round (mul g (of_ℕ (2 ^ shift)))

  unfoldable pub gain_error : Float → ℤ → ℕ → Float
  unfolding decode_gain
  gain_error g mant shift = magnitude (sub (decode_gain mant shift) g)

  -- `best`: a mantissa, its shift and its error.
  abbrev pub Best : Type 0
  Best = Option (ℤ × ℕ × Float)

  -- `best is None or err <= best[2]`.
  abbrev pub improves : Float → Best → Bool
  improves error none = true
  improves error (some (mant, shift, least)) = le error least

  unfoldable pub keep_best : Float → ℕ → ℤ → Best → Best
  keep_best g shift mant best =
      if is_mantissa mant && improves (gain_error g mant shift) best
      then some (mant, shift, gain_error g mant shift)
      else best

  -- The loop of `encode_gain`, from a shift on.
  unfoldable pub scan_shifts : Float → ℕ → ℕ → Best → Result Best
  scan_shifts g shift zero best = ok best
  scan_shifts g shift (suc left) best =
      scaled g shift >>= λ mant. scan_shifts g (shift + 1) left (keep_best g shift mant best)

  -- What is made of `best`.
  unfoldable pub conclude : Best → Result (ℤ × ℕ)
  conclude none = err Error.value_error
  conclude (some (mant, shift, least)) =
      if eqb_ℤ mant (pos 0) then err Error.value_error else ok (mant, shift)

  unfoldable pub encode_gain : Float → ℕ → Result (ℤ × ℕ)
  encode_gain g shift_bits =
      if eq g (of_ℕ 0)
      then ok (pos 0, 0)
      else (scan_shifts g 0 (2 ^ shift_bits - 1 + 1) none >>= conclude)
