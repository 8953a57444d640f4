-- ===== src/Hdl/Top/Safety.antt =====
-- What the DAC codes of the whole top obey, whatever it measures and whatever is written to it.
use coil_servo.Base.{
  ℕ, ◌/◌, ◌%◌, ◌^◌, ◌≤◌, ◌≡◌, ◌⊎◌, inl, inr, refl, arith, Bool, Bool-cases, true, false, List, [],
  ◌∷◌, All, if◌then◌else◌,
}
use mathlib.Core.Path.{subst, sym}
use coil_servo.Base.Int.{ℤ, pos, neg, ◌≤ℤ◌, IsSigned, neg_parts, parts_disjoint, eq_of_parts}
use coil_servo.Signal.Pi.Clamp.{IsWithin}
use coil_servo.Signal.Mux.{output_mux_fixed}
use coil_servo.Hdl.Wires.{as_signed_of_IsSigned}
use coil_servo.Hdl.Pi
use coil_servo.Hdl.Pi.{
  PiRegs, PiInputs, stage_case, clamp_out, above, below, clamp_s, clamp_pos, u14_wire,
}
use coil_servo.Hdl.OutputMux
use coil_servo.Hdl.OutputMux.{MuxRegs, MuxInputs}
use coil_servo.Hdl.OutputMux.Codes.{codes, clock-output_mux_fixed}
use coil_servo.Hdl.Top.{TopRegs, TopInputs, sp_clamped, clock, mux_inputs, pi_inputs}
use coil_servo.Hdl.Top.Config.{wires}

module _ (clamp : ℕ) (small : clamp ≤ 8191) where
  -- The clamp of the controller, on any word.
  clamp_out-IsWithin : (u24 : ℤ) → IsWithin (pos clamp) (clamp_out u24 clamp)
  unfolding clamp_out above below clamp_s clamp_pos
  clamp_out-IsWithin u24 =
      rw
        (
          as_signed_of_IsSigned 17 (pos clamp) (omega arith),
          as_signed_of_IsSigned 13 (pos clamp) (omega arith),
          as_signed_of_IsSigned 17 (neg (pos clamp)) (omega (arith, neg_parts (pos clamp))),
          as_signed_of_IsSigned 13 (neg (pos clamp)) (omega (arith, neg_parts (pos clamp))),
        )
        (ground (
          arith,
          neg_parts (pos clamp),
          parts_disjoint (u14_wire u24),
          as_signed_of_IsSigned 13 (u14_wire u24),
        ))

  -- The clamp of the bypass, on any setpoint.
  sp_clamped-IsWithin : (sp : ℤ) → IsWithin (pos clamp) (sp_clamped clamp sp)
  unfolding sp_clamped
  sp_clamped-IsWithin sp =
      rw
        (
          as_signed_of_IsSigned 13 (pos clamp) (omega arith),
          as_signed_of_IsSigned 13 (neg (pos clamp)) (omega (arith, neg_parts (pos clamp))),
        )
        (ground (arith, neg_parts (pos clamp), parts_disjoint sp))

  zero-IsWithin : IsWithin (pos clamp) (pos 0)
  zero-IsWithin = omega (arith, neg_parts (pos clamp))

pub clock_u14 :
    (x : PiInputs) (r : PiRegs)
    → ((Pi.clock x r).u14 ≡ r.u14)
      ⊎ (((Pi.clock x r).u14 ≡ pos 0) ⊎ ((Pi.clock x r).u14 ≡ clamp_out r.u24 x.clamp))
unfolding Pi.clock stage_case
clock_u14 x r = ground arith

reset_codes :
    (x : MuxInputs) (r : MuxRegs) → x.aresetn ≡ false → codes (OutputMux.clock x r) ≡ (pos 0, pos 0)
unfolding OutputMux.clock
reset_codes x r down = rw down refl

-- Two DAC codes within the clamp, of which at most one drives; the pass bank's is never negative.
pub record IsSafe (clamp : ℕ) (outs : ℤ × ℤ) : Type 0 where
  pub pass_nonneg : pos 0 ≤ℤ outs.0
  pub pass_within : IsWithin (pos clamp) outs.0
  pub clamp_within : IsWithin (pos clamp) outs.1
  pub one : (outs.0 ≡ pos 0) ⊎ (outs.1 ≡ pos 0)

zero-IsSafe : (clamp : ℕ) → IsSafe clamp (pos 0, pos 0)
zero-IsSafe clamp = record {
  pass_nonneg = omega arith;
  pass_within = omega (arith, neg_parts (pos clamp));
  clamp_within = omega (arith, neg_parts (pos clamp));
  one = inl refl;
}

-- What the output stage gives for an output within the clamp.
gated-IsSafe :
    (clamp : ℕ) (u : ℤ) (deadband : ℕ) (invert enable : Bool)
    → clamp ≤ 8191
    → IsWithin (pos clamp) u
    → let (o1, o2) = output_mux_fixed u (pos deadband) in
      IsSafe clamp (if enable then (o1, if invert then neg o2 else o2) else (pos 0, pos 0))
unfolding output_mux_fixed
gated-IsSafe clamp u deadband invert enable small h = ground (
  arith,
  zero-IsSafe clamp,
  neg_parts u,
  neg_parts (neg u),
  neg_parts (pos 0),
  neg_parts (pos 8191),
  neg_parts (pos deadband),
  neg_parts (pos clamp),
  eq_of_parts (neg (pos 0)) (pos 0),
)

mux-IsSafe :
    (clamp : ℕ) (x : MuxInputs) (r : MuxRegs)
    → clamp ≤ 8191
    → x.deadband ≤ 16383
    → IsWithin (pos clamp) x.u14
    → IsSafe clamp (codes (OutputMux.clock x r))
mux-IsSafe clamp x r small band h = elim (Bool-cases x.aresetn) [
  | inl up ↦
      let fits : IsSigned 14 x.u14 = omega (arith, neg_parts (pos clamp), parts_disjoint x.u14) in
      subst (IsSafe clamp) (sym (clock-output_mux_fixed x fits band r up))
        (gated-IsSafe clamp x.u14 x.deadband x.out2_invert x.enable small h)
  | inr down ↦ subst (IsSafe clamp) (sym (reset_codes x r down)) (zero-IsSafe clamp)
]

-- What every edge keeps: the controller's output and the driven output lie within the clamp.
record IsClamped (clamp : ℕ) (r : TopRegs) : Type 0 where
  output : IsWithin (pos clamp) r.pi_0.u14
  driven : IsWithin (pos clamp) r.u_drive
  safe : IsSafe clamp (codes r.mux_0)

deadband_fits : (cfg_data : ℕ) → (wires cfg_data).deadband ≤ 16383
unfolding wires
deadband_fits cfg_data = below_2_14 (cfg_data / 2 ^ 224)
  where
    below_2_14 : (n : ℕ) → n % 2 ^ 14 ≤ 16383
    below_2_14 n = omega arith

module _ (clamp : ℕ) (small : clamp ≤ 8191) (x : TopInputs) (r : TopRegs) where
  u14-IsWithin :
      (wires x.cfg_data).out_clamp ≡ clamp
      → IsWithin (pos clamp) r.pi_0.u14
      → IsWithin (pos clamp) (Pi.clock (pi_inputs x r) r.pi_0).u14
  u14-IsWithin e h = elim (clock_u14 (pi_inputs x r) r.pi_0) [
    | inl kept ↦ rw kept h
    | inr (inl zero) ↦ rw zero (zero-IsWithin clamp small)
    | inr (inr taken) ↦ rw (taken, e) (clamp_out-IsWithin clamp small r.pi_0.u24)
  ]

  drive-IsWithin :
      (wires x.cfg_data).out_clamp ≡ clamp
      → IsWithin (pos clamp) r.pi_0.u14
      → IsWithin (pos clamp) (clock x r).u_drive
  unfolding clock
  drive-IsWithin e h =
      rw e (
        ground
          (arith, zero-IsWithin clamp small, sp_clamped-IsWithin clamp small r.err_0.sp_active))

  clock-IsClamped :
      (wires x.cfg_data).out_clamp ≡ clamp → IsClamped clamp r → IsClamped clamp (clock x r)
  clock-IsClamped e c = record {
    output = unfold clock in u14-IsWithin e c.output;
    driven = drive-IsWithin e c.output;
    safe =
        unfold clock in
        mux-IsSafe clamp (mux_inputs x r) r.mux_0 small (deadband_fits x.cfg_data) c.driven;
  }

  reset-IsClamped : x.aresetn ≡ false → IsClamped clamp (clock x r)
  unfolding clock Pi.clock OutputMux.clock
  reset-IsClamped down = record {
    output = rw down (zero-IsWithin clamp small);
    driven = rw down (zero-IsWithin clamp small);
    safe = rw down (zero-IsSafe clamp);
  }

-- The registers after a run.
unfoldable pub run : TopRegs → List TopInputs → TopRegs
run r [] = r
run r (x ∷ xs) = run (clock x r) xs

-- The inputs leave the clamp register at a value.
abbrev pub KeepsClamp : ℕ → List TopInputs → Type 0
KeepsClamp clamp = All (λ x. (wires x.cfg_data).out_clamp ≡ clamp)

run-IsClamped :
    (clamp : ℕ) (xs : List TopInputs) (r : TopRegs)
    → clamp ≤ 8191
    → KeepsClamp clamp xs
    → IsClamped clamp r
    → IsClamped clamp (run r xs)
unfolding run
run-IsClamped clamp [] r small k c = c
run-IsClamped clamp (x ∷ xs) r small (k, ks) c =
    run-IsClamped clamp xs (clock x r) small ks (clock-IsClamped clamp small x r k c)

-- An edge that is taken with the bridge open leaves both codes at zero.
silenced :
    (x : TopInputs) (r : TopRegs)
    → (r.fsm_0.bridge_en ≡ true) ⊎ (codes (clock x r).mux_0 ≡ (pos 0, pos 0))
unfolding clock OutputMux.clock
silenced x r = ground arith

-- From any registers, after an edge in reset and any inputs that keep the clamp register at a DAC
-- code, in the closed loop and in the open one: both DAC codes lie within the clamp, the pass bank's
-- is zero or more, at most one is not zero, and a next edge either finds the bridge closed or leaves
-- both codes at zero.
pub dac-IsSafe :
    (clamp : ℕ) (r : TopRegs) (x y : TopInputs) (xs : List TopInputs)
    → clamp ≤ 8191
    → x.aresetn ≡ false
    → KeepsClamp clamp xs
    → let s = run (clock x r) xs in
      IsSafe clamp (codes s.mux_0)
      × ((s.fsm_0.bridge_en ≡ true) ⊎ (codes (clock y s).mux_0 ≡ (pos 0, pos 0)))
dac-IsSafe clamp r x y xs small down k = (
  (run-IsClamped clamp xs (clock x r) small k (reset-IsClamped clamp small x r down)).safe,
  silenced y (run (clock x r) xs),
)
