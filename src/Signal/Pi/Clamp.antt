-- ===== src/Signal/Pi/Clamp.antt =====
-- The hard output clamp and the runs of the PI controller.
use mathlib.Core.Path.{subst}
use coil_servo.Base.{
  ◌⊎◌, inl, inr, ap, suc, ◌^◌, ◌≡◌, refl, arith, Bool, List, [], ◌∷◌, length, All, ok, err, Error,
}
use coil_servo.Base.Int.{◌*ℤ◌, ℤ, pos, ◌+ℤ◌, neg, ◌≤ℤ◌, IsSigned, neg_parts, parts_disjoint}
use coil_servo.Signal.Sat.{sat, sat-IsSigned}
use coil_servo.Signal.Pi.{FixedPi, u24_of, u14_pre, clamped, next_acc, tick, step, run}

-- A code that the clamp lets through.
abbrev pub IsWithin : ℤ → ℤ → Type 0
IsWithin clamp u = (neg clamp ≤ℤ u) × (u ≤ℤ clamp)

pub clamped-IsWithin : (c : FixedPi) (u : ℤ) → pos 0 ≤ℤ c.clamp → IsWithin c.clamp (clamped c u)
unfolding clamped
clamped-IsWithin c u h = ground (arith, neg_parts c.clamp, parts_disjoint u, parts_disjoint c.clamp)

-- The saturated terms fit 24 bits.
pub u24-IsSigned : (c : FixedPi) (e : ℤ) → IsSigned 24 (u24_of c e)
unfolding u24_of
u24-IsSigned c e = sat-IsSigned _ 24

-- A tick keeps the accumulator or moves it by the integral term.
pub next_acc_cases :
    (c : FixedPi) (e : ℤ) (hold : Bool)
    → (next_acc c e hold ≡ c.acc) ⊎ (next_acc c e hold ≡ sat (c.acc +ℤ e *ℤ c.ki_mant) 48)
unfolding next_acc
next_acc_cases c e hold = ground arith

pub next_acc-IsSigned :
    (c : FixedPi) (e : ℤ) (hold : Bool) → IsSigned 48 c.acc → IsSigned 48 (next_acc c e hold)
next_acc-IsSigned c e hold h = elim (next_acc_cases c e hold) [
  | inl kept ↦ rw kept h
  | inr moved ↦ rw moved (sat-IsSigned _ 48)
]

-- `step` takes every 22-bit error.
pub step_of_signed :
    (c : FixedPi) (e : ℤ) (hold : Bool) → IsSigned 22 e → step c e hold ≡ ok (tick c e hold)
unfolding step
step_of_signed c e hold h = ground (arith, neg_parts (pos (2 ^ 21)), parts_disjoint e)

-- Any other raises.
pub step_refuses :
    (c : FixedPi) (e : ℤ) (hold : Bool)
    → ¬ IsSigned 22 e
    → step c e hold ≡ err Error.assertion_error
unfolding step
step_refuses c e hold h = ground (arith, neg_parts (pos (2 ^ 21)), parts_disjoint e, h)

-- The state that every tick keeps: the accumulator fits 48 bits and the clamp is no negative number.
pub record IsValid (c : FixedPi) : Type 0 where
  pub acc_fits : IsSigned 48 c.acc
  pub clamp_nonneg : pos 0 ≤ℤ c.clamp

pub tick-IsValid : (c : FixedPi) (e : ℤ) (hold : Bool) → IsValid c → IsValid (tick c e hold).1
unfolding tick
tick-IsValid c e hold v = record {
  acc_fits = next_acc-IsSigned c e hold v.acc_fits;
  clamp_nonneg = v.clamp_nonneg;
}

pub tick-IsWithin :
    (c : FixedPi) (e : ℤ) (hold : Bool) → pos 0 ≤ℤ c.clamp → IsWithin c.clamp (tick c e hold).0
unfolding tick
tick-IsWithin c e hold h = clamped-IsWithin c (u14_pre c e) h

pub tick_keeps_clamp : (c : FixedPi) (e : ℤ) (hold : Bool) → (tick c e hold).1.clamp ≡ c.clamp
unfolding tick
tick_keeps_clamp c e hold = refl

-- A run over any errors of 22 bits, with any holds, never fails: it gives one output for each
-- error, each inside the clamp that the controller was built with, and the accumulator stays
-- inside 48 bits.
pub run-IsWithin :
    (c : FixedPi) (es : List (ℤ × Bool))
    → IsValid c
    → All (λ e. IsSigned 22 e.0) es
    → (us : List ℤ) × (c' : FixedPi) × (run c es ≡ ok (us, c'))
      × (length us ≡ length es)
      × All (IsWithin c.clamp) us
      × IsValid c'
unfolding run
run-IsWithin c [] v h = ([], c, refl, refl, tt, v)
run-IsWithin c ((e, hold) ∷ es) v h =
    let (us, c', eq, len, within, valid) =
      run-IsWithin (tick c e hold).1 es (tick-IsValid c e hold v) h.1 in
    (
      (tick c e hold).0 ∷ us,
      c',
      rw (step_of_signed c e hold h.0) (rw eq refl),
      ap suc len,
      (
        tick-IsWithin c e hold v.clamp_nonneg,
        subst (λ k. All (IsWithin k) us) (tick_keeps_clamp c e hold) within,
      ),
      valid,
    )
