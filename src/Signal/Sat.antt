-- ===== src/Signal/Sat.antt =====
-- `sat` of model/coil_servo_model/fixed_point.py, and what a saturation guarantees.
use coil_servo.Base.{ℕ, ◌-◌, ◌^◌, ◌≡◌, arith, if◌then◌else◌}
use coil_servo.Base.Int.{
  ℤ, pos, ◌-ℤ◌, neg, ◌≤ℤ◌, ltb_ℤ, leb_ℤ, IsSigned, neg_parts, -ℤ_parts, parts_disjoint,
}
use native.Mathlib.Nat.{one-le-pow}

unfoldable pub sat : ℤ → ℕ → ℤ
sat x bits =
    let lim = pos (2 ^ (bits - 1)) in
    if leb_ℤ lim x then lim -ℤ pos 1 else if ltb_ℤ x (neg lim) then neg lim else x

-- The result fits the word, whatever comes in.
pub sat-IsSigned : (x : ℤ) (bits : ℕ) → IsSigned bits (sat x bits)
unfolding sat
sat-IsSigned x bits = ground (
  arith,
  one-le-pow (bits - 1) 2 (omega arith),
  neg_parts (pos (2 ^ (bits - 1))),
  -ℤ_parts (pos (2 ^ (bits - 1))) (pos 1),
  parts_disjoint (pos (2 ^ (bits - 1)) -ℤ pos 1),
)

-- What fits the word passes unchanged.
pub sat_of_IsSigned : (x : ℤ) (bits : ℕ) → IsSigned bits x → sat x bits ≡ x
unfolding sat
sat_of_IsSigned x bits h = ground (arith, neg_parts (pos (2 ^ (bits - 1))), parts_disjoint x)

-- Saturation keeps the order.
pub sat_mono : (x y : ℤ) (bits : ℕ) → x ≤ℤ y → sat x bits ≤ℤ sat y bits
unfolding sat
sat_mono x y bits h = ground (
  arith,
  one-le-pow (bits - 1) 2 (omega arith),
  neg_parts (pos (2 ^ (bits - 1))),
  -ℤ_parts (pos (2 ^ (bits - 1))) (pos 1),
  parts_disjoint (pos (2 ^ (bits - 1)) -ℤ pos 1),
)
