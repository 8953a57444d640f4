-- ===== src/Signal/Pi/Widths.antt =====
-- The widths of the words inside `step`: no intermediate value needs more bits than the format
-- table of the source gives, and the rounding is to the nearest count.
use native.Mathlib.Nat.{le_trans, mul-le-mul}
use coil_servo.Base.{ℕ, ◌-◌, ◌^◌, ◌≤◌, arith}
use coil_servo.Base.Int.{
  ℤ, pos, ◌+ℤ◌, ◌*ℤ◌, ◌>>ℤ◌, ◌<<ℤ◌, ◌≤ℤ◌, ◌<ℤ◌, abs_ℤ, IsSigned, abs-*ℤ, +ℤ_parts, <<ℤ_parts,
  >>ℤ_parts, parts_disjoint,
}
use coil_servo.Signal.Sat.{sat-IsSigned}
use coil_servo.Signal.Pi.{FixedPi, p_term, i_term, u24_of, u14_pre}
use coil_servo.Signal.Pi.Clamp.{u24-IsSigned}

abs-le : (w : ℕ) (x : ℤ) → IsSigned w x → abs_ℤ x ≤ 2 ^ (w - 1)
abs-le w x h = omega (arith, parts_disjoint x)

-- An error of 22 bits times a gain of 18 bits is at most 2 ^ 38 in size.
product_fits : (e k : ℤ) → IsSigned 22 e → IsSigned 18 k → abs_ℤ (e *ℤ k) ≤ 2 ^ 38
product_fits e k he hk =
    rw abs-*ℤ (le_trans (mul-le-mul (abs-le 22 e he) (abs-le 18 k hk)) (omega arith))

-- With gains of 18 bits, an error of 22 bits and an accumulator of 48 bits: the products fit 40
-- bits, the sum of the two terms 25, the next accumulator 49 before its saturation, and the
-- rounded output 18 before the clamp.
pub step_widths :
    (c : FixedPi) (e : ℤ)
    → IsSigned 22 e
    → IsSigned 18 c.kp_mant
    → IsSigned 18 c.ki_mant
    → IsSigned 48 c.acc
    → IsSigned 40 (e *ℤ c.kp_mant)
      × IsSigned 40 (e *ℤ c.ki_mant)
      × IsSigned 25 (p_term c e +ℤ i_term c)
      × IsSigned 49 (c.acc +ℤ e *ℤ c.ki_mant)
      × IsSigned 18 (u14_pre c e)
unfolding u14_pre p_term i_term
step_widths c e he hp hi ha = omega (
  arith,
  product_fits e c.kp_mant he hp,
  product_fits e c.ki_mant he hi,
  +ℤ_parts c.acc (e *ℤ c.ki_mant),
  +ℤ_parts (p_term c e) (i_term c),
  sat-IsSigned ((e *ℤ c.kp_mant) >>ℤ c.kp_shift) 24,
  sat-IsSigned (c.acc >>ℤ c.ki_shift) 24,
  u24-IsSigned c e,
  +ℤ_parts (u24_of c e) (pos 64),
  >>ℤ_parts (u24_of c e +ℤ pos 64) 7,
  parts_disjoint c.acc,
  parts_disjoint (e *ℤ c.ki_mant),
  parts_disjoint (c.acc +ℤ e *ℤ c.ki_mant),
  parts_disjoint (p_term c e +ℤ i_term c),
  parts_disjoint (u24_of c e),
  parts_disjoint (u24_of c e +ℤ pos 64),
)

-- The DAC code before the clamp is the nearest to the 24-bit output, a half rounding up.
u14_pre-nearest :
    (c : FixedPi) (e : ℤ)
    → ((u14_pre c e <<ℤ 7) ≤ℤ u24_of c e +ℤ pos 64) × (u24_of c e <ℤ (u14_pre c e <<ℤ 7) +ℤ pos 64)
unfolding u14_pre
u14_pre-nearest c e =
    let u = u24_of c e +ℤ pos 64 in
    omega (
      arith,
      +ℤ_parts (u24_of c e) (pos 64),
      +ℤ_parts ((u >>ℤ 7) <<ℤ 7) (pos 64),
      >>ℤ_parts u 7,
      <<ℤ_parts (u >>ℤ 7) 7,
      parts_disjoint (u24_of c e),
      parts_disjoint u,
    )
