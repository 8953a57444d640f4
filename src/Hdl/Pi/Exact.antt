-- ===== src/Hdl/Pi/Exact.antt =====
-- servo_pi.v is bit-exact against `FixedPI`: the words that a tick leaves are those of the model.
use coil_servo.Base.{
  ℕ, ◌≤◌, ◌≡◌, refl, arith, Bool, true, false, not, ◌&&◌, ◌||◌, if◌then◌else◌, same_bool,
}
use coil_servo.Base.Int.{ℤ, pos, ◌+ℤ◌, ◌*ℤ◌, ◌>>ℤ◌, ltb_ℤ, IsSigned, >>ℤ_shrinks}
use coil_servo.Hdl.Wires.{as_signed_of_IsSigned}
use coil_servo.Hdl.Pi.{
  Stage, PiRegs, PiInputs, sat48, sum_pi, acc_next, engaged, windup_skip, clamp_out, clock,
  stage_case,
}
use coil_servo.Hdl.Pi.Values.{sat24_lem, sat48_lem, clamp_out_lem, engaged_lem}
use coil_servo.Hdl.Pi.Stages.{quiet, acc_read, before_out, five_edges}
use coil_servo.Signal.Sat.{sat}
use coil_servo.Signal.Pi.{FixedPi, p_term, i_term, u24_of, u14_pre, clamped, next_acc, is_engaged}
use coil_servo.Signal.Pi.Clamp.{u24-IsSigned}
use coil_servo.Signal.Pi.Widths.{step_widths}

-- The inputs carry the gains and the clamp of the model, in the widths of the ports.
pub record Carries (x : PiInputs) (c : FixedPi) : Type 0 where
  pub kp_mant : x.kp_mant ≡ c.kp_mant
  pub kp_shift : x.kp_shift ≡ c.kp_shift
  pub ki_mant : x.ki_mant ≡ c.ki_mant
  pub ki_shift : x.ki_shift ≡ c.ki_shift
  pub clamp : c.clamp ≡ pos x.clamp
  pub kp_fits : IsSigned 18 c.kp_mant
  pub ki_fits : IsSigned 18 c.ki_mant
  pub clamp_fits : x.clamp ≤ 8191

next_acc_held :
    (c : FixedPi) (e : ℤ) (hold clear : Bool)
    → (if not hold
          && (not clear
              && not (is_engaged c e && same_bool (ltb_ℤ (pos 0) e) (ltb_ℤ (pos 0) (u24_of c e))))
        then sat (c.acc +ℤ e *ℤ c.ki_mant) 48
        else c.acc)
      ≡ next_acc c e (hold || clear)
unfolding next_acc
next_acc_held c e true clear = refl
next_acc_held c e false true = refl
next_acc_held c e false false = refl

shifted-IsSigned : (w : ℕ) (a : ℤ) (k : ℕ) → IsSigned w a → IsSigned w (a >>ℤ k)
shifted-IsSigned w a k h = omega (arith, >>ℤ_shrinks a k)

module _ (x : PiInputs) (r : PiRegs) (c : FixedPi) (m : Carries x c) (same : acc_read x r ≡ c.acc)
    (e_fits : IsSigned 22 x.e) (acc_fits : IsSigned 48 c.acc) where
  widths :
      IsSigned 40 (x.e *ℤ c.kp_mant)
      × IsSigned 40 (x.e *ℤ c.ki_mant)
      × IsSigned 25 (p_term c x.e +ℤ i_term c)
      × IsSigned 49 (c.acc +ℤ x.e *ℤ c.ki_mant)
      × IsSigned 18 (u14_pre c x.e)
  widths = step_widths c x.e e_fits m.kp_fits m.ki_fits acc_fits

  p_lem : (before_out x r).p_term ≡ p_term c x.e
  unfolding p_term
  p_lem =
      rw
        (
          m.kp_mant,
          m.kp_shift,
          as_signed_of_IsSigned 39 (x.e *ℤ c.kp_mant) widths.0,
          as_signed_of_IsSigned 48 ((x.e *ℤ c.kp_mant) >>ℤ c.kp_shift)
              (omega (arith, shifted-IsSigned 40 (x.e *ℤ c.kp_mant) c.kp_shift widths.0)),
        )
        (sat24_lem _)

  i_lem : (before_out x r).i_term ≡ i_term c
  unfolding i_term
  i_lem =
      rw
        (
          m.ki_shift,
          same,
          as_signed_of_IsSigned 48 (c.acc >>ℤ c.ki_shift)
              (omega (arith, shifted-IsSigned 48 c.acc c.ki_shift acc_fits)),
        )
        (sat24_lem _)

  u24_lem : (before_out x r).u24 ≡ u24_of c x.e
  unfolding sum_pi u24_of
  u24_lem =
      rw
        (
          p_lem,
          i_lem,
          as_signed_of_IsSigned 24 (p_term c x.e +ℤ i_term c) widths.2,
          as_signed_of_IsSigned 48 (p_term c x.e +ℤ i_term c) (omega (arith, widths.2)),
        )
        (sat24_lem _)

  sat_lem : engaged (before_out x r).u24 x.clamp ≡ is_engaged c x.e
  unfolding u14_pre
  sat_lem =
      rw u24_lem (engaged_lem (u24_of c x.e) x.clamp (u24-IsSigned c x.e) m.clamp_fits c m.clamp)

  out_lem : clamp_out (before_out x r).u24 x.clamp ≡ clamped c (u14_pre c x.e)
  unfolding u14_pre
  out_lem =
      rw u24_lem (clamp_out_lem (u24_of c x.e) x.clamp (u24-IsSigned c x.e) m.clamp_fits c m.clamp)

  moved_lem : sat48 (acc_next (before_out x r)) ≡ sat (c.acc +ℤ x.e *ℤ c.ki_mant) 48
  unfolding acc_next
  moved_lem =
      rw
        (
          same,
          m.ki_mant,
          as_signed_of_IsSigned 39 (x.e *ℤ c.ki_mant) widths.1,
          as_signed_of_IsSigned 48 (c.acc +ℤ x.e *ℤ c.ki_mant) widths.3,
        )
        (sat48_lem _)

  skip_lem :
      windup_skip (quiet x) (before_out x r)
      ≡ (is_engaged c x.e && same_bool (ltb_ℤ (pos 0) x.e) (ltb_ℤ (pos 0) (u24_of c x.e)))
  unfolding windup_skip
  skip_lem = rw (sat_lem, u24_lem) refl

  -- After the five edges of a tick: the state machine rests, and the output, the saturation flag
  -- and the accumulator are those of the model, held while it is held or cleared.
  pub exact_tick :
      x.aresetn ≡ true
      → x.tick ≡ true
      → r.state ≡ Stage.idle
      → let r' =
          clock (quiet x) (clock (quiet x) (clock (quiet x) (clock (quiet x) (clock x r)))) in
        (r'.state ≡ Stage.idle)
        × (r'.u14 ≡ clamped c (u14_pre c x.e))
        × (r'.out_sat ≡ is_engaged c x.e)
        × (r'.acc ≡ next_acc c x.e (x.int_hold || x.int_clear))
  unfolding stage_case
  exact_tick up strobe rest = rw (five_edges x r up strobe rest) (refl, out_lem, sat_lem, acc_lem)
    where
      acc_lem :
          (stage_case Stage.out (quiet x) (before_out x r) (before_out x r)).acc
          ≡ next_acc c x.e (x.int_hold || x.int_clear)
      acc_lem = rw (skip_lem, moved_lem, same) (next_acc_held c x.e x.int_hold x.int_clear)
