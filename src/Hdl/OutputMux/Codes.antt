-- ===== src/Hdl/OutputMux/Codes.antt =====
-- The codes of the output stage are those of `output_mux_fixed`.
use coil_servo.Base.{◌≤◌, ◌≡◌, arith, true, if◌then◌else◌}
use coil_servo.Base.Int.{ℤ, pos, neg, ◌≤ℤ◌, min_ℤ, IsSigned, neg_parts, parts_disjoint, eq_of_parts}
use coil_servo.Signal.Mux.{output_mux_fixed}
use coil_servo.Hdl.Wires.{as_signed_of_IsSigned}
use coil_servo.Hdl.OutputMux.{MuxRegs, MuxInputs, db, mag15, mag, clock}

abbrev pub codes : MuxRegs → ℤ × ℤ
codes r = (r.out1, r.out2)

-- The words of the output stage, on an output of 14 bits and a dead band of 14 bits.
module _ (x : MuxInputs) (h : IsSigned 14 x.u14) (hd : x.deadband ≤ 16383) where
  db_lem : db x ≡ pos x.deadband
  unfolding db
  db_lem = as_signed_of_IsSigned 14 (pos x.deadband) (omega arith)

  mag15_lem : mag15 x ≡ neg x.u14
  unfolding mag15
  mag15_lem = as_signed_of_IsSigned 14 (neg x.u14) (omega (arith, neg_parts x.u14))

  -- Where the clamp is driven, the magnitude saturates as in the model.
  mag_lem : x.u14 ≤ℤ pos 0 → mag x ≡ min_ℤ (neg x.u14) (pos 8191)
  unfolding mag
  mag_lem below =
      rw mag15_lem (
        ground (arith, neg_parts x.u14, parts_disjoint x.u14, as_signed_of_IsSigned 13 (neg x.u14)))

  -- What an edge out of reset leaves: zeros with the enable low, else the codes of the model, the
  -- second one negated with the inversion on.
  pub clock-output_mux_fixed :
      (r : MuxRegs)
      → x.aresetn ≡ true
      → let (o1, o2) = output_mux_fixed x.u14 (pos x.deadband) in
        codes (clock x r)
        ≡ (if x.enable then (o1, if x.out2_invert then neg o2 else o2) else (pos 0, pos 0))
  unfolding clock output_mux_fixed
  clock-output_mux_fixed r up =
      let low =
        as_signed_of_IsSigned 14 (neg (pos x.deadband))
          (omega (arith, neg_parts (pos x.deadband))) in
      let fits : IsSigned 14 (neg (min_ℤ (neg x.u14) (pos 8191))) =
        ground (arith, neg_parts x.u14, neg_parts (neg x.u14), neg_parts (pos 8191)) in
      rw (db_lem, low)
        (ground (
          arith,
          mag_lem,
          as_signed_of_IsSigned 13 (neg (min_ℤ (neg x.u14) (pos 8191))) fits,
          neg_parts (pos x.deadband),
          neg_parts (pos 0),
          eq_of_parts (neg (pos 0)) (pos 0),
        ))
