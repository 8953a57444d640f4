-- ===== src/Hdl/Pi/Values.antt =====
-- The words of servo_pi.v are the integers of the Python model: no register and no wire loses a bit.
use coil_servo.Base.{ℕ, ◌≤◌, ◌≡◌, refl, arith, not}
use coil_servo.Base.Int.{
  ℤ, pos, ◌+ℤ◌, ◌>>ℤ◌, neg, ltb_ℤ, IsSigned, neg_parts, parts_disjoint, +ℤ_parts, -ℤ_parts, ◌-ℤ◌,
  eq_of_parts, eqb_ℤ, >>ℤ_parts,
}
use coil_servo.Signal.Sat.{sat}
use coil_servo.Signal.Pi as Model
use coil_servo.Hdl.Wires.{as_signed_of_IsSigned}
use coil_servo.Hdl.Pi.{sat24, sat48, u14_wire, clamp_s, clamp_pos, above, below, engaged, clamp_out}

-- The saturation functions are `sat`.
pub sat24_lem : (x : ℤ) → sat24 x ≡ sat x 24
unfolding sat24 sat
sat24_lem x = ground (
  arith,
  as_signed_of_IsSigned 23 x,
  neg_parts (pos 8388608),
  -ℤ_parts (pos 8388608) (pos 1),
  eq_of_parts (pos 8388608 -ℤ pos 1) (pos 8388607),
)

pub sat48_lem : (x : ℤ) → sat48 x ≡ sat x 48
unfolding sat48 sat
sat48_lem x = ground (
  arith,
  as_signed_of_IsSigned 47 x,
  neg_parts (pos 140737488355328),
  -ℤ_parts (pos 140737488355328) (pos 1),
  eq_of_parts (pos 140737488355328 -ℤ pos 1) (pos 140737488355327),
)

-- The rounded output before the clamp, from a word of 24 bits.
abbrev rounded : ℤ → ℤ
rounded u24 = (u24 +ℤ pos 64) >>ℤ 7

rounded-IsSigned : (u24 : ℤ) → IsSigned 24 u24 → IsSigned 18 (rounded u24)
rounded-IsSigned u24 h = omega (
  arith,
  +ℤ_parts u24 (pos 64),
  >>ℤ_parts (u24 +ℤ pos 64) 7,
  parts_disjoint u24,
  parts_disjoint (u24 +ℤ pos 64),
)

u14_wire_lem : (u24 : ℤ) → IsSigned 24 u24 → u14_wire u24 ≡ rounded u24
unfolding u14_wire
u14_wire_lem u24 h =
    let fits : IsSigned 25 (u24 +ℤ pos 64) =
      omega (arith, +ℤ_parts u24 (pos 64), parts_disjoint u24, parts_disjoint (u24 +ℤ pos 64)) in
    rw (as_signed_of_IsSigned 24 (u24 +ℤ pos 64) fits)
      (as_signed_of_IsSigned 17 (rounded u24) (rounded-IsSigned u24 h))

module _ (u24 : ℤ) (clamp : ℕ) (h : IsSigned 24 u24) (hc : clamp ≤ 8191) where
  clamp_s_lem : clamp_s clamp ≡ pos clamp
  unfolding clamp_s
  clamp_s_lem = as_signed_of_IsSigned 17 (pos clamp) (omega arith)

  clamp_pos_lem : clamp_pos clamp ≡ pos clamp
  unfolding clamp_pos
  clamp_pos_lem = as_signed_of_IsSigned 13 (pos clamp) (omega arith)

  above_lem : above u24 clamp ≡ ltb_ℤ (pos clamp) (rounded u24)
  unfolding above
  above_lem = rw (clamp_s_lem, u14_wire_lem u24 h) refl

  below_lem : below u24 clamp ≡ ltb_ℤ (rounded u24) (neg (pos clamp))
  unfolding below
  below_lem =
      rw
        (
          clamp_s_lem,
          u14_wire_lem u24 h,
          as_signed_of_IsSigned 17 (neg (pos clamp)) (omega (arith, neg_parts (pos clamp))),
        )
        refl

  -- The output register takes the clamped output of the model.
  pub clamp_out_lem :
      (c : Model.FixedPi)
      → c.clamp ≡ pos clamp
      → clamp_out u24 clamp ≡ Model.clamped c (rounded u24)
  unfolding clamp_out Model.clamped
  clamp_out_lem c e =
      rw
        (
          above_lem,
          below_lem,
          clamp_pos_lem,
          u14_wire_lem u24 h,
          e,
          as_signed_of_IsSigned 13 (neg (pos clamp)) (omega (arith, neg_parts (pos clamp))),
        )
        (ground (
          arith,
          as_signed_of_IsSigned 13 (rounded u24),
          neg_parts (pos clamp),
          parts_disjoint (rounded u24),
          parts_disjoint (neg (pos clamp)),
          eq_of_parts (rounded u24) (neg (pos clamp)),
          eq_of_parts (rounded u24) (pos clamp),
        ))

  -- The clamp is engaged when the model's output is not the rounded one.
  pub engaged_lem :
      (c : Model.FixedPi)
      → c.clamp ≡ pos clamp
      → engaged u24 clamp ≡ not (eqb_ℤ (Model.clamped c (rounded u24)) (rounded u24))
  unfolding engaged Model.clamped
  engaged_lem c e =
      rw (above_lem, below_lem, e)
        (ground (
          arith,
          neg_parts (pos clamp),
          parts_disjoint (rounded u24),
          parts_disjoint (neg (pos clamp)),
        ))
