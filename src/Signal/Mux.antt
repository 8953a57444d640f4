-- ===== src/Signal/Mux.antt =====
-- `output_mux_fixed` of model/coil_servo_model/fixed_point.py: the sign of the output chooses the
-- pass bank (OUT1) or the clamp (OUT2), with a dead band between them.
use coil_servo.Base.{◌≡◌, ◌⊎◌, arith, ◌<◌, ◌≤◌, if◌then◌else◌}
use coil_servo.Base.Int.{
  ℤ, pos, neg, ◌-ℤ◌, ◌≤ℤ◌, pos_part, abs_ℤ, ltb_ℤ, min_ℤ, IsSigned, neg_parts, -ℤ_parts,
  parts_disjoint, eq_of_parts,
}

unfoldable pub output_mux_fixed : ℤ → ℤ → ℤ × ℤ
output_mux_fixed u14 deadband_counts =
    if ltb_ℤ deadband_counts u14
    then (u14, pos 0)
    else if ltb_ℤ u14 (neg deadband_counts)
    then (pos 0, min_ℤ (neg u14) (pos 8191))
    else (pos 0, pos 0)

-- With a dead band of zero counts or more, both codes are zero or more and never both nonzero;
-- on a 14-bit output both fit the DAC's 0 … 8191.
pub output_mux_exclusive :
    (u deadband : ℤ)
    → pos 0 ≤ℤ deadband
    → IsSigned 14 u
    → let (o1, o2) = output_mux_fixed u deadband in
      (pos 0 ≤ℤ o1)
      × (o1 ≤ℤ pos 8191)
      × (pos 0 ≤ℤ o2)
      × (o2 ≤ℤ pos 8191)
      × ((o1 ≡ pos 0) ⊎ (o2 ≡ pos 0))
unfolding output_mux_fixed
output_mux_exclusive u deadband d h =
    ground (arith, neg_parts u, neg_parts deadband, parts_disjoint u, parts_disjoint deadband)

-- Outside the dead band the two outputs carry the whole command, save the one code -8192 that has
-- no counterpart; inside it both stages are off.
pub output_mux_faithful :
    (u deadband : ℤ)
    → pos 0 ≤ℤ deadband
    → neg (pos 8191) ≤ℤ u
    → let (o1, o2) = output_mux_fixed u deadband in
      ((abs_ℤ u ≤ pos_part deadband) × (o1 ≡ pos 0) × (o2 ≡ pos 0))
      ⊎ ((pos_part deadband < abs_ℤ u) × (o1 -ℤ o2 ≡ u))
unfolding output_mux_fixed
output_mux_faithful u deadband d h = ground (
  arith,
  neg_parts u,
  neg_parts deadband,
  parts_disjoint u,
  parts_disjoint deadband,
  neg_parts (pos 8191),
  -ℤ_parts u (pos 0),
  -ℤ_parts (pos 0) (pos 8191),
  -ℤ_parts (pos 0) (neg u),
  eq_of_parts (u -ℤ pos 0) u,
  eq_of_parts (pos 0 -ℤ pos 8191) u,
  eq_of_parts (pos 0 -ℤ neg u) u,
)
