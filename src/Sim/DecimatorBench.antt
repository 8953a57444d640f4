-- ===== src/Sim/DecimatorBench.antt =====
-- `decimator_matches_python_model` of sim/tb_servo_decimator.py: the decimator of the hardware
-- against `Decimator`.

pub mod Passes
use coil_servo.Base.{
  ℕ, ◌+◌, ◌*◌, Bool, true, false, Option, none, some, List, [], ◌∷◌, if◌then◌else◌, not, ◌==◌,
  Result, ok, Error, guard, ◌>>=◌, ◌>>◌,
}
use coil_servo.Base.Int.{ℤ, pos, eqb_ℤ}
use coil_servo.Signal.Decimator.{Decimator, fresh, push}
use coil_servo.Hdl.Dut.{Dut, write, edge, reset}
use coil_servo.Hdl.Decimator.{DecimatorRegs, DecimatorInputs, clock}

abbrev pub DecimatorDut : Type 0
DecimatorDut = Dut DecimatorRegs DecimatorInputs

abbrev pub set_aresetn : Bool → DecimatorInputs → DecimatorInputs
set_aresetn b x = record x { aresetn = b }

-- The two edges of a sample.
unfoldable pub feed : ℤ → DecimatorDut → DecimatorDut
feed e d = edge clock (
    write (λ x. record x { in_valid = false })
      (edge clock (write (λ x. record x { e_fast = e; in_valid = true }) d)))

-- What the bench asserts after a sample: the outputs seen.
unfoldable pub compare_out : Option ℤ → DecimatorDut → ℕ → Result ℕ
compare_out (some expected) d seen = do
  guard d.regs.out_valid Error.assertion_error
  guard (eqb_ℤ d.regs.e_out expected) Error.assertion_error
  ok (seen + 1)
compare_out none d seen = do guard (not d.regs.out_valid) Error.assertion_error; ok seen

-- The loop over the samples.
pub check_samples : Decimator → DecimatorDut → ℕ → List ℤ → Result ℕ
check_samples golden d seen [] = ok seen
check_samples golden d seen (e ∷ es) = do
  (expected, golden') ← push golden e
  seen' ← compare_out expected (feed e d) seen
  check_samples golden' (feed e d) seen' es

-- `decimator_matches_python_model`, for the samples of its frames.
unfoldable pub matches_model : ℕ → List ℤ → DecimatorDut → Result (Unit {0})
matches_model n_frames es d = do
  let started =
      reset clock set_aresetn (write (λ x. record x { in_valid = false; e_fast = pos 0 }) d)
  guard (eqb_ℤ started.regs.e_out (pos 0)) Error.assertion_error
  outputs_seen ← check_samples fresh started 0 es
  guard (outputs_seen == n_frames) Error.assertion_error
  ok tt
