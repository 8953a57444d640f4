-- ===== src/Signal/Pi/Windup.antt =====
-- Anti-windup: what a tick does to the accumulator.
use mathlib.Core.Path.{subst}
use coil_servo.Base.{Bool-cases, ℕ, ◌*◌, ◌≡◌, inl, inr, refl, ap, arith, Bool, true, false}
use coil_servo.Base.Int.{
  ℤ, pos, negsuc, ◌+ℤ◌, ◌*ℤ◌, neg, ◌≤ℤ◌, ◌<ℤ◌, ltb_ℤ, IsSigned, neg_parts, parts_disjoint, +ℤ_parts,
  *ℤ_parts, >>ℤ_parts,
}
use coil_servo.Signal.Sat.{sat, sat_mono, sat_of_IsSigned}
use coil_servo.Signal.Pi.{FixedPi, u24_of, u14_pre, clamped, next_acc}
use coil_servo.Signal.Pi.Clamp.{next_acc_cases}

-- The rounding keeps the sign of what lies outside the clamp.
u24_above : (c : FixedPi) (e : ℤ) → pos 0 <ℤ u14_pre c e → pos 0 <ℤ u24_of c e
unfolding u14_pre
u24_above c e h = omega (
  arith,
  +ℤ_parts (u24_of c e) (pos 64),
  >>ℤ_parts (u24_of c e +ℤ pos 64) 7,
  parts_disjoint (u24_of c e),
  parts_disjoint (u24_of c e +ℤ pos 64),
)

u24_below : (c : FixedPi) (e : ℤ) → u14_pre c e <ℤ pos 0 → u24_of c e <ℤ pos 0
unfolding u14_pre
u24_below c e h = omega (
  arith,
  +ℤ_parts (u24_of c e) (pos 64),
  >>ℤ_parts (u24_of c e +ℤ pos 64) 7,
  parts_disjoint (u24_of c e),
  parts_disjoint (u24_of c e +ℤ pos 64),
)

-- A product with a gain of zero or more has the sign of the error.
product_le : (e k : ℤ) → e ≤ℤ pos 0 → pos 0 ≤ℤ k → e *ℤ k ≤ℤ pos 0
product_le e (negsuc k) he hk = absurd (omega arith)
product_le (pos m) (pos k) he hk =
    let m0 : m ≡ 0 = omega arith in
    omega (arith, *ℤ_parts (pos m) (pos k), ap (λ (t : ℕ). t * k) m0)
product_le (negsuc m) (pos k) he hk =
    omega (arith, *ℤ_parts (negsuc m) (pos k), parts_disjoint (negsuc m *ℤ pos k))

product_ge : (e k : ℤ) → pos 0 ≤ℤ e → pos 0 ≤ℤ k → pos 0 ≤ℤ e *ℤ k
product_ge (pos m) (pos k) he hk =
    omega (arith, *ℤ_parts (pos m) (pos k), parts_disjoint (pos m *ℤ pos k))
product_ge (pos m) (negsuc k) he hk = absurd (omega arith)
product_ge (negsuc m) k he hk = absurd (omega arith)

module _ (c : FixedPi) (e : ℤ) (hold : Bool) where
  -- With the output above the clamp a positive error is not accumulated.
  frozen_above : pos 0 ≤ℤ c.clamp → c.clamp <ℤ u14_pre c e → pos 0 <ℤ e → next_acc c e hold ≡ c.acc
  unfolding next_acc clamped
  frozen_above hc above he =
      ground (arith, u24_above c e, neg_parts c.clamp, parts_disjoint c.clamp)

  -- Below it, an error of zero or less is not.
  frozen_below :
      pos 0 ≤ℤ c.clamp → u14_pre c e <ℤ neg c.clamp → e ≤ℤ pos 0 → next_acc c e hold ≡ c.acc
  unfolding next_acc clamped
  frozen_below hc below he =
      ground (arith, u24_below c e, neg_parts c.clamp, parts_disjoint c.clamp)

  moved_le :
      IsSigned 48 c.acc
      → pos 0 ≤ℤ c.ki_mant
      → e ≤ℤ pos 0
      → sat (c.acc +ℤ e *ℤ c.ki_mant) 48 ≤ℤ c.acc
  moved_le fits hk he =
      subst (λ x. sat (c.acc +ℤ e *ℤ c.ki_mant) 48 ≤ℤ x) (sat_of_IsSigned c.acc 48 fits)
        (sat_mono (c.acc +ℤ e *ℤ c.ki_mant) c.acc 48
          (omega (arith, +ℤ_parts c.acc (e *ℤ c.ki_mant), product_le e c.ki_mant he hk)))

  moved_ge :
      IsSigned 48 c.acc
      → pos 0 ≤ℤ c.ki_mant
      → pos 0 ≤ℤ e
      → c.acc ≤ℤ sat (c.acc +ℤ e *ℤ c.ki_mant) 48
  moved_ge fits hk he =
      subst (λ x. x ≤ℤ sat (c.acc +ℤ e *ℤ c.ki_mant) 48) (sat_of_IsSigned c.acc 48 fits)
        (sat_mono c.acc (c.acc +ℤ e *ℤ c.ki_mant) 48
          (omega (arith, +ℤ_parts c.acc (e *ℤ c.ki_mant), product_ge e c.ki_mant he hk)))

-- No integrator wind-up: with an integral gain of zero or more, while the output lies beyond the
-- clamp on either side a tick never moves the accumulator further to that side.
pub no_windup :
    (c : FixedPi) (e : ℤ) (hold : Bool)
    → pos 0 ≤ℤ c.clamp
    → IsSigned 48 c.acc
    → pos 0 ≤ℤ c.ki_mant
    → (c.clamp <ℤ u14_pre c e → next_acc c e hold ≤ℤ c.acc)
      × (u14_pre c e <ℤ neg c.clamp → c.acc ≤ℤ next_acc c e hold)
no_windup c e hold hc fits hk = (above, below)
  where
    above : c.clamp <ℤ u14_pre c e → next_acc c e hold ≤ℤ c.acc
    above out = elim (Bool-cases (ltb_ℤ (pos 0) e)) [
      | inl up ↦ rw (frozen_above c e hold hc out (ground arith)) (omega arith)
      | inr down ↦ elim (next_acc_cases c e hold) [
        | inl kept ↦ rw kept (omega arith)
        | inr moved ↦ rw moved (moved_le c e hold fits hk (ground arith))
      ]
    ]

    below : u14_pre c e <ℤ neg c.clamp → c.acc ≤ℤ next_acc c e hold
    below out = elim (Bool-cases (ltb_ℤ (pos 0) e)) [
      | inr down ↦ rw (frozen_below c e hold hc out (ground arith)) (omega arith)
      | inl up ↦ elim (next_acc_cases c e hold) [
        | inl kept ↦ rw kept (omega arith)
        | inr moved ↦ rw moved (moved_ge c e hold fits hk (ground arith))
      ]
    ]

-- On hold the accumulator is frozen; otherwise, while the output is inside the clamp, it takes
-- every error, times the gain, saturated to 48 bits.
next_acc_inside :
    (c : FixedPi) (e : ℤ)
    → (next_acc c e true ≡ c.acc)
      × (clamped c (u14_pre c e) ≡ u14_pre c e
          → next_acc c e false ≡ sat (c.acc +ℤ e *ℤ c.ki_mant) 48)
unfolding next_acc
next_acc_inside c e = (refl, λ inside. rw inside (ground arith))
