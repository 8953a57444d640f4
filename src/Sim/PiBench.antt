-- ===== src/Sim/PiBench.antt =====
-- `tick` and `bit_exact_against_model` of sim/tb_servo_pi.py: the controller of the hardware against
-- `FixedPI`, tick for tick.
pub mod Rounds
pub mod Passes
use coil_servo.Base.{
  ℕ, Bool, true, false, not, ◌&&◌, ◌||◌, List, [], ◌∷◌, if◌then◌else◌, same_bool, Result, ok, Error,
  guard, ◌>>=◌, ◌>>◌,
}
use coil_servo.Base.Int.{ℤ, pos, neg, ◌+ℤ◌, ◌>>ℤ◌, leb_ℤ, eqb_ℤ}
use coil_servo.Signal.Pi.{FixedPi, new_pi, clear, step}
use coil_servo.Hdl.Dut.{Dut, write, edge, edges, reset}
use coil_servo.Hdl.Pi.{PiRegs, PiInputs, clock}

abbrev pub PiDut : Type 0
PiDut = Dut PiRegs PiInputs

pub record Gains : Type 0 where
  pub kp_m : ℤ
  pub kp_s : ℕ
  pub ki_m : ℤ
  pub ki_s : ℕ

-- One of the random ticks.
pub record Event : Type 0 where
  pub e : ℤ
  pub hold : Bool
  pub clears : Bool

abbrev pub set_aresetn : Bool → PiInputs → PiInputs
set_aresetn b x = record x { aresetn = b }

-- `apply_gains`.
unfoldable pub apply_gains : Gains → ℕ → PiDut → PiDut
apply_gains g clamp = write λ x. record x {
  kp_mant = g.kp_m;
  kp_shift = g.kp_s;
  ki_mant = g.ki_m;
  ki_shift = g.ki_s;
  clamp = clamp;
}

-- `tick`: the output that it reads, and the module after it.
unfoldable pub tick : Event → PiDut → ℤ × PiDut
tick v d =
    let strobed =
      edge clock (
        write (λ x. record x { int_hold = v.hold; int_clear = v.clears; e = v.e; tick = true })
          d) in
    let d' = edges clock 6 (write (λ x. record x { tick = false }) strobed) in (d'.regs.u14, d')

-- The body of the loop over the ticks.
unfoldable pub check_tick : ℕ → FixedPi → PiDut → Event → Result (FixedPi × PiDut)
check_tick clamp golden d v = do
  (exp, golden') ← step (if v.clears then clear golden else golden) v.e (v.hold || v.clears)
  let (got, d') = tick v d
  guard (eqb_ℤ got exp) Error.assertion_error
  guard (leb_ℤ (neg (pos clamp)) got && leb_ℤ got (pos clamp)) Error.assertion_error
  guard (eqb_ℤ d'.regs.acc golden'.acc) Error.assertion_error
  guard (same_bool d'.regs.out_sat (not (eqb_ℤ exp ((golden'.u24 +ℤ pos 64) >>ℤ 7))))
      Error.assertion_error
  ok (golden', d')

-- The loop over the ticks: the module after it.
pub check_ticks : ℕ → FixedPi → PiDut → List Event → Result PiDut
check_ticks clamp golden d [] = ok d
check_ticks clamp golden d (v ∷ vs) = do
  (golden', d') ← check_tick clamp golden d v
  check_ticks clamp golden' d' vs

-- The body of the loop over the sets of gains.
unfoldable pub check_gains : ℕ → PiDut → Gains → List Event → Result PiDut
check_gains clamp d g vs =
    let held =
      write (λ x. record x { int_hold = false; int_clear = false }) (apply_gains g clamp d) in
    check_ticks clamp (new_pi g.kp_m g.kp_s g.ki_m g.ki_s (pos clamp))
      (reset clock set_aresetn held) vs

-- The loop over the sets of gains, each with its ticks.
pub check_sets : ℕ → PiDut → List (Gains × List Event) → Result PiDut
check_sets clamp d [] = ok d
check_sets clamp d ((g, vs) ∷ sets) = do d' ← check_gains clamp d g vs; check_sets clamp d' sets

-- `bit_exact_against_model`.
unfoldable pub bit_exact_against_model : ℕ → PiDut → List (Gains × List Event) → Result PiDut
bit_exact_against_model clamp d = check_sets clamp (write (λ x. record x { tick = false }) d)
