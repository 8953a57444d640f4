-- ===== src/Signal/Pi.antt =====
-- `FixedPI` of model/coil_servo_model/fixed_point.py: the integer PI controller. The shifts and
-- the mantissas are the register fields; a method returns the new object.
pub mod Clamp
pub mod Windup
pub mod Widths
use coil_servo.Base.{
  ℕ, ◌^◌, Bool, not, ◌&&◌, List, [], ◌∷◌, if◌then◌else◌, same_bool, Result, ok, Error, guard, ◌>>=◌,
  ◌>>◌,
}
use coil_servo.Base.Int.{ℤ, pos, ◌+ℤ◌, ◌*ℤ◌, ◌>>ℤ◌, neg, ltb_ℤ, leb_ℤ, eqb_ℤ, min_ℤ, max_ℤ}
use coil_servo.Signal.Sat.{sat}

pub record FixedPi : Type 0 where
  pub kp_mant : ℤ
  pub kp_shift : ℕ
  pub ki_mant : ℤ
  pub ki_shift : ℕ
  pub clamp : ℤ
  pub acc : ℤ
  pub p : ℤ
  pub i : ℤ
  pub u24 : ℤ
  pub u14 : ℤ

-- `FixedPI(…)`.
unfoldable pub new_pi : ℤ → ℕ → ℤ → ℕ → ℤ → FixedPi
new_pi kp_mant kp_shift ki_mant ki_shift clamp_counts = record {
  kp_mant = kp_mant;
  kp_shift = kp_shift;
  ki_mant = ki_mant;
  ki_shift = ki_shift;
  clamp = clamp_counts;
  acc = pos 0;
  p = pos 0;
  i = pos 0;
  u24 = pos 0;
  u14 = pos 0;
}

-- `FixedPI.clear`.
unfoldable pub clear : FixedPi → FixedPi
clear c = record c { acc = pos 0 }

-- The proportional term, the integral term and their sum: the first saturations of `step`.
unfoldable pub p_term : FixedPi → ℤ → ℤ
p_term c e22 = sat ((e22 *ℤ c.kp_mant) >>ℤ c.kp_shift) 24

unfoldable pub i_term : FixedPi → ℤ
i_term c = sat (c.acc >>ℤ c.ki_shift) 24

unfoldable pub u24_of : FixedPi → ℤ → ℤ
unfolding p_term i_term
u24_of c e22 = sat (p_term c e22 +ℤ i_term c) 24

-- The output before the clamp: rounded to DAC counts.
unfoldable pub u14_pre : FixedPi → ℤ → ℤ
u14_pre c e22 = (u24_of c e22 +ℤ pos 64) >>ℤ 7

unfoldable pub clamped : FixedPi → ℤ → ℤ
clamped c u = max_ℤ (neg c.clamp) (min_ℤ c.clamp u)

-- `engaged`.
abbrev pub is_engaged : FixedPi → ℤ → Bool
is_engaged c e22 = not (eqb_ℤ (clamped c (u14_pre c e22)) (u14_pre c e22))

-- The accumulator after a tick: frozen on hold, and while the clamp is engaged against the error.
unfoldable pub next_acc : FixedPi → ℤ → Bool → ℤ
next_acc c e22 hold =
    if not hold
      && not (is_engaged c e22 && same_bool (ltb_ℤ (pos 0) e22) (ltb_ℤ (pos 0) (u24_of c e22)))
    then sat (c.acc +ℤ e22 *ℤ c.ki_mant) 48
    else c.acc

-- `step` after its assertion.
unfoldable pub tick : FixedPi → ℤ → Bool → ℤ × FixedPi
tick c e22 hold =
    let u14 = clamped c (u14_pre c e22) in
    (
      u14,
      record c {
        acc = next_acc c e22 hold;
        p = p_term c e22;
        i = i_term c;
        u24 = u24_of c e22;
        u14 = u14;
      },
    )

-- `FixedPI.step`.
unfoldable pub step : FixedPi → ℤ → Bool → Result (ℤ × FixedPi)
step c e22 hold = do
  guard (leb_ℤ (neg (pos (2 ^ 21))) e22 && ltb_ℤ e22 (pos (2 ^ 21))) Error.assertion_error
  ok (tick c e22 hold)

-- One call of `step` after another: the outputs, and the object at the end.
pub run : FixedPi → List (ℤ × Bool) → Result (List ℤ × FixedPi)
run c [] = ok ([], c)
run c ((e22, hold) ∷ es) = do (u, c') ← step c e22 hold; (us, c'') ← run c' es; ok (u ∷ us, c'')
