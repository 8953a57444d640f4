-- ===== src/Sim/ErrorBench.antt =====
-- `matches_model` of sim/tb_servo_error.py: the error path of the hardware against
-- `drive_frame_error`.
use coil_servo.Base.{
  ℕ, ◌≡◌, ◌∙◌, sym, ap, refl, arith, Bool, true, ◌&&◌, List, [], ◌∷◌, All, ◌==◌, bool_to_ℕ, Result,
  ok, Error, guard, ◌>>=◌, ◌>>◌,
}
use coil_servo.Base.Int.{ℤ, neg, ◌-ℤ◌, eqb_ℤ, IsSigned, neg_parts, -ℤ_parts, parts_disjoint}
use coil_servo.Signal.DriveFrame.{drive_frame_error, active_setpoint-IsSigned, active_setpoint}
use coil_servo.Signal.Path.{Sample, IsCoded}
use coil_servo.Hdl.Wires.{as_signed_of_IsSigned}
use coil_servo.Hdl.Dut.{Dut, write, edge, edges, reset}
use coil_servo.Hdl.ErrorPath.{ErrorRegs, ErrorInputs, sp, error, clock}

abbrev pub ErrorDut : Type 0
ErrorDut = Dut ErrorRegs ErrorInputs

abbrev set_aresetn : Bool → ErrorInputs → ErrorInputs
set_aresetn b x = record x { aresetn = b }

-- What a case drives.
abbrev pub driving : Sample → ErrorInputs → ErrorInputs
driving s x = record x {
  meas = s.meas_code;
  in2 = s.in2_code;
  sp_reg = s.sp_reg;
  sp_source = s.sp_source;
  sp_force_zero = s.sp_force_zero;
  polarity = s.polarity;
}

-- The body of the loop over the cases.
unfoldable pub check_case : ErrorDut → Sample → Result ErrorDut
check_case d s =
    let d' = edge clock (edge clock (write (driving s) d)) in
    let (e_exp, sp_exp, mm_exp) =
      drive_frame_error s.meas_code s.in2_code s.sp_reg s.sp_source s.sp_force_zero s.polarity in
    do
      guard
          (eqb_ℤ d'.regs.e_fast e_exp
            && (eqb_ℤ d'.regs.sp_active sp_exp && (bool_to_ℕ d'.regs.sp_sign_mismatch == mm_exp)))
          Error.assertion_error
      ok d'

pub check_cases : ErrorDut → List Sample → Result ErrorDut
check_cases d [] = ok d
check_cases d (s ∷ ss) = do d' ← check_case d s; check_cases d' ss

-- `matches_model`.
unfoldable pub error_matches_model : List Sample → ErrorDut → Result ErrorDut
error_matches_model cases d = check_cases (reset clock set_aresetn d) cases

eqb_refl : (a : ℤ) → eqb_ℤ a a ≡ true
eqb_refl a = ground arith

beq_refl : (a : ℕ) → (a == a) ≡ true
beq_refl a = ground arith

-- The difference of two codes of 14 bits, and its negation, fit 15.
difference_fits :
    (a b : ℤ) → IsSigned 14 a → IsSigned 14 b → IsSigned 15 (a -ℤ b) × IsSigned 15 (neg (a -ℤ b))
difference_fits a b ha hb = omega (
  arith,
  -ℤ_parts a b,
  neg_parts (a -ℤ b),
  parts_disjoint (a -ℤ b),
  parts_disjoint a,
  parts_disjoint b,
)

sp_lem :
    (s : Sample) (x : ErrorInputs)
    → sp (driving s x) ≡ active_setpoint s.in2_code s.sp_reg s.sp_source s.sp_force_zero
unfolding sp active_setpoint
sp_lem s x = refl

-- The registers after an edge out of reset are the triple of the model.
clock-drive_frame_error :
    (s : Sample) (x : ErrorInputs) (r : ErrorRegs)
    → IsCoded s
    → x.aresetn ≡ true
    → let r' = clock (driving s x) r in
      (r'.e_fast, r'.sp_active, bool_to_ℕ r'.sp_sign_mismatch)
      ≡ drive_frame_error s.meas_code s.in2_code s.sp_reg s.sp_source s.sp_force_zero s.polarity
unfolding clock error drive_frame_error
clock-drive_frame_error s x r c up =
    let active = active_setpoint s.in2_code s.sp_reg s.sp_source s.sp_force_zero in
    let fits =
      difference_fits active s.meas_code
        (active_setpoint-IsSigned s.in2_code s.sp_reg s.sp_source s.sp_force_zero c.in2_fits
          c.sp_fits)
        c.meas_fits in
    rw
      (
        sp_lem s x,
        up,
        as_signed_of_IsSigned 14 (active -ℤ s.meas_code) fits.0,
        as_signed_of_IsSigned 14 (neg (active -ℤ s.meas_code)) fits.1,
      )
      refl

check_case_passes :
    (d : ErrorDut) (s : Sample)
    → d.driven.aresetn ≡ true
    → IsCoded s
    → (d' : ErrorDut) × (check_case d s ≡ ok d') × (d'.driven.aresetn ≡ true)
unfolding check_case edge write
check_case_passes d s up c =
    let x = driving s d.driven in
    let r = clock d.sampled d.regs in
    let same = clock-drive_frame_error s d.driven r c up in
    (
      record { regs = clock x r; sampled = x; driven = x },
      rw
          (
            ap (λ (t : ℤ × ℤ × ℕ). eqb_ℤ (clock x r).e_fast t.0) (sym same)
                ∙ eqb_refl (clock x r).e_fast,
            ap (λ (t : ℤ × ℤ × ℕ). eqb_ℤ (clock x r).sp_active t.1) (sym same)
                ∙ eqb_refl (clock x r).sp_active,
            ap (λ (t : ℤ × ℤ × ℕ). bool_to_ℕ (clock x r).sp_sign_mismatch == t.2) (sym same)
                ∙ beq_refl (bool_to_ℕ (clock x r).sp_sign_mismatch),
          )
          refl,
      up,
    )

check_cases_pass :
    (d : ErrorDut) (ss : List Sample)
    → d.driven.aresetn ≡ true
    → All IsCoded ss
    → (d' : ErrorDut) × (check_cases d ss ≡ ok d')
unfolding check_cases
check_cases_pass d [] up h = (d, refl)
check_cases_pass d (s ∷ ss) up (h, hs) =
    let (d', passed, up') = check_case_passes d s up h in
    let (d'', rest) = check_cases_pass d' ss up' hs in (d'', rw (passed, rest) refl)

-- On a module in any state, for any cases in codes of 14 bits, no assertion of the bench fails.
pub error_bench_passes :
    (d : ErrorDut) (ss : List Sample)
    → All IsCoded ss
    → (d' : ErrorDut) × (error_matches_model ss d ≡ ok d')
unfolding error_matches_model reset write edges edge
error_bench_passes d ss h = check_cases_pass (reset clock set_aresetn d) ss refl h
