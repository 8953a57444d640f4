-- ===== src/Sim/MuxBench.antt =====
-- `apply` and `matches_model_and_never_both_active` of sim/tb_servo_output_mux.py: the output stage
-- of the hardware against `output_mux_fixed`.
use coil_servo.Base.{
  ℕ, ◌≤◌, ◌≡◌, refl, arith, Bool, true, false, ◌&&◌, ◌||◌, List, [], ◌∷◌, All, if◌then◌else◌,
  Result, ok, Error, guard, ◌>>=◌, ◌>>◌,
}
use coil_servo.Base.Int.{ℤ, pos, neg, leb_ℤ, eqb_ℤ, IsSigned}
use coil_servo.Signal.Mux.{output_mux_fixed, output_mux_exclusive}
use coil_servo.Hdl.Dut.{Dut, write, edge, edges, reset}
use coil_servo.Hdl.OutputMux.{MuxRegs, MuxInputs, clock}
use coil_servo.Hdl.OutputMux.Codes.{clock-output_mux_fixed}

abbrev pub MuxDut : Type 0
MuxDut = Dut MuxRegs MuxInputs

abbrev set_aresetn : Bool → MuxInputs → MuxInputs
set_aresetn b x = record x { aresetn = b }

-- `apply`: the two codes that it reads, and the module after it.
unfoldable pub apply : ℤ → ℕ → Bool → Bool → MuxDut → (ℤ × ℤ) × MuxDut
apply u deadband enable invert d =
    let d' = edge clock (
      edge clock (
        write
          (λ x. record x { u14 = u; deadband = deadband; enable = enable; out2_invert = invert })
          d)) in
    ((d'.regs.out1, d'.regs.out2), d')

-- The body of the loop over the cases.
unfoldable pub check_case : MuxDut → ℤ × ℕ → Result MuxDut
check_case d (u, deadband) = do
  let ((o1, o2), d') = apply u deadband true false d
  let (e1, e2) = output_mux_fixed u (pos deadband)
  guard (eqb_ℤ o1 e1 && eqb_ℤ o2 e2) Error.assertion_error
  guard (eqb_ℤ o1 (pos 0) || eqb_ℤ o2 (pos 0)) Error.assertion_error
  guard (leb_ℤ (pos 0) o1 && leb_ℤ (pos 0) o2) Error.assertion_error
  ok d'

pub check_cases : MuxDut → List (ℤ × ℕ) → Result MuxDut
check_cases d [] = ok d
check_cases d (c ∷ cs) = do d' ← check_case d c; check_cases d' cs

-- `matches_model_and_never_both_active`.
unfoldable pub mux_matches_model : List (ℤ × ℕ) → MuxDut → Result MuxDut
mux_matches_model cases d = check_cases (reset clock set_aresetn d) cases

-- Whatever the state of the module, `apply` out of reset reads the codes of the model: both zero with
-- the enable low, and the second one negated with the inversion on.
pub apply-output_mux_fixed :
    (u : ℤ) (deadband : ℕ) (enable invert : Bool) (d : MuxDut)
    → d.driven.aresetn ≡ true
    → IsSigned 14 u
    → deadband ≤ 16383
    → let (o1, o2) = output_mux_fixed u (pos deadband) in
      ((apply u deadband enable invert d).0
        ≡ (if enable then (o1, if invert then neg o2 else o2) else (pos 0, pos 0)))
      × ((apply u deadband enable invert d).1.driven.aresetn ≡ true)
unfolding apply edge write
apply-output_mux_fixed u deadband enable invert d up h hd = (
  clock-output_mux_fixed
      (record d.driven { u14 = u; deadband = deadband; enable = enable; out2_invert = invert }) h hd
      (clock d.sampled d.regs) up,
  up,
)

check_case_passes :
    (d : MuxDut) (u : ℤ) (deadband : ℕ)
    → d.driven.aresetn ≡ true
    → IsSigned 14 u
    → deadband ≤ 16383
    → let d' = (apply u deadband true false d).1 in
      (check_case d (u, deadband) ≡ ok d') × (d'.driven.aresetn ≡ true)
unfolding check_case
check_case_passes d u deadband up h hd =
    let (same, up') = apply-output_mux_fixed u deadband true false d up h hd in
    let (pos1, fits1, pos2, fits2, one) = output_mux_exclusive u (pos deadband) (omega arith) h in
    (rw same (ground arith), up')

check_cases_pass :
    (d : MuxDut) (cs : List (ℤ × ℕ))
    → d.driven.aresetn ≡ true
    → All (λ c. IsSigned 14 c.0 × (c.1 ≤ 16383)) cs
    → (d' : MuxDut) × (check_cases d cs ≡ ok d')
unfolding check_cases
check_cases_pass d [] up h = (d, refl)
check_cases_pass d ((u, deadband) ∷ cs) up ((h, hd), hs) =
    let (passed, up') = check_case_passes d u deadband up h hd in
    let (d'', rest) = check_cases_pass (apply u deadband true false d).1 cs up' hs in
    (d'', rw (passed, rest) refl)

-- On a module in any state, for any outputs and dead bands of 14 bits, no assertion of the bench fails.
pub mux_bench_passes :
    (d : MuxDut) (cs : List (ℤ × ℕ))
    → All (λ c. IsSigned 14 c.0 × (c.1 ≤ 16383)) cs
    → (d' : MuxDut) × (mux_matches_model cs d ≡ ok d')
unfolding mux_matches_model reset write edges edge
mux_bench_passes d cs h = check_cases_pass (reset clock set_aresetn d) cs refl h
