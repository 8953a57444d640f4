-- ===== src/Sim/DecimatorBench/Passes.antt =====
-- The bench of the decimator passes on every input.
use coil_servo.Base.{
  ℕ, ◌+◌, ◌*◌, ◌%◌, ◌^◌, ◌≤◌, ◌<◌, ◌≡◌, ◌⊎◌, refl, inl, inr, arith, true, false, List, [], ◌∷◌,
  length, ◌==◌, ok,
}
use coil_servo.Base.Int.{
  ℤ, pos, ◌+ℤ◌, eqb_ℤ, IsSigned, pos_part, neg_part, +ℤ_parts, parts_disjoint,
}
use coil_servo.Signal.Decimator.{Decimator, fresh}
use coil_servo.Signal.Decimator.Blocks.{IsFast, push_of_fast, accumulate-more, accumulate-dump}
use coil_servo.Hdl.Wires.{as_signed_of_IsSigned}
use coil_servo.Hdl.Dut.{write, edge, edges, reset}
use coil_servo.Hdl.Decimator.{DecimatorRegs, DecimatorInputs, added, clock}
use coil_servo.Sim.DecimatorBench.{DecimatorDut, feed, compare_out, check_samples, matches_model}

-- Between two samples: no strobe is driven, and the registers are the model's, whose sum is no
-- larger than its samples make it.
record Mirrors (d : DecimatorDut) (g : Decimator) : Type 0 where
  sampled_up : d.sampled.aresetn ≡ true
  sampled_still : d.sampled.in_valid ≡ false
  driven_up : d.driven.aresetn ≡ true
  same_acc : d.regs.acc ≡ g.acc
  same_count : d.regs.count ≡ g.count
  small : g.count < 128
  bounded : (pos_part g.acc ≤ 16384 * g.count) × (neg_part g.acc ≤ 16384 * g.count)

-- What a sample drives.
abbrev strobe_of : ℤ → DecimatorDut → DecimatorInputs
strobe_of e d = record d.driven { e_fast = e; in_valid = true }

abbrev lowered : DecimatorRegs → DecimatorRegs
lowered r = record r { out_valid = false }

module _ (e : ℤ) (d : DecimatorDut) (g : Decimator) (m : Mirrors d g) (h : IsSigned 15 e) where
  sum_fits : IsSigned 22 (g.acc +ℤ e)
  sum_fits = omega (
    arith,
    m.bounded,
    m.small,
    +ℤ_parts g.acc e,
    parts_disjoint g.acc,
    parts_disjoint e,
    parts_disjoint (g.acc +ℤ e),
  )

  added_lem : added (strobe_of e d) (lowered d.regs) ≡ g.acc +ℤ e
  unfolding added
  added_lem = rw m.same_acc (as_signed_of_IsSigned 21 (g.acc +ℤ e) sum_fits)

  still_lem : clock d.sampled d.regs ≡ lowered d.regs
  unfolding clock
  still_lem = rw (m.sampled_up, m.sampled_still) refl

  -- The module after a sample that is not the last of its frame, and after the last.
  abbrev after_more : DecimatorDut
  after_more =
      let q = record (strobe_of e d) { in_valid = false } in
      record {
        regs = record (lowered d.regs) { acc = g.acc +ℤ e; count = g.count + 1 };
        sampled = q;
        driven = q;
      }

  abbrev after_last : DecimatorDut
  after_last =
      let q = record (strobe_of e d) { in_valid = false } in
      record {
        regs = record { acc = pos 0; count = 0; e_out = g.acc +ℤ e; out_valid = true };
        sampled = q;
        driven = q;
      }

  feed_more : g.count + 1 < 128 → feed e d ≡ after_more
  unfolding feed edge write clock
  feed_more more =
      let test : (g.count == 127) ≡ false = ground arith in
      let next : (g.count + 1) % 2 ^ 7 ≡ g.count + 1 = omega arith in
      rw (still_lem, added_lem, m.driven_up, m.same_count, test, next) refl

  feed_last : g.count + 1 ≡ 128 → feed e d ≡ after_last
  unfolding feed edge write clock
  feed_last last =
      let test : (g.count == 127) ≡ true = ground arith in
      rw (still_lem, added_lem, m.driven_up, m.same_count, test) refl

  more-Mirrors :
      g.count + 1 < 128 → Mirrors after_more (record { acc = g.acc +ℤ e; count = g.count + 1 })
  more-Mirrors more = record {
    sampled_up = m.driven_up;
    sampled_still = refl;
    driven_up = m.driven_up;
    same_acc = refl;
    same_count = refl;
    small = more;
    bounded = omega (
      arith,
      m.bounded,
      +ℤ_parts g.acc e,
      parts_disjoint g.acc,
      parts_disjoint e,
      parts_disjoint (g.acc +ℤ e),
    );
  }

  last-Mirrors : Mirrors after_last fresh
  last-Mirrors = record {
    sampled_up = m.driven_up;
    sampled_still = refl;
    driven_up = m.driven_up;
    same_acc = refl;
    same_count = refl;
    small = omega arith;
    bounded = omega arith;
  }

eqb_refl : (a : ℤ) → eqb_ℤ a a ≡ true
eqb_refl a = ground arith

-- The outputs seen, times 128, and the samples left make up the samples fed.
check_samples_pass :
    (g : Decimator) (d : DecimatorDut) (seen : ℕ) (es : List ℤ)
    → Mirrors d g
    → IsFast es
    → (seen' : ℕ) × (left : ℕ) × (check_samples g d seen es ≡ ok seen')
      × (left < 128)
      × (128 * seen' + left ≡ 128 * seen + (g.count + length es))
unfolding check_samples compare_out
check_samples_pass g d seen [] m h = (seen, g.count, refl, m.small, omega arith)
check_samples_pass g d seen (e ∷ es) m (h, hs) = elim (split (g.count)) [
  | inl more ↦
      let (seen', left, passed, small, total) =
        check_samples_pass (record { acc = g.acc +ℤ e; count = g.count + 1 }) (after_more e d g m h)
          seen es (more-Mirrors e d g m h more) hs in
      (
        seen',
        left,
        rw (push_of_fast g e h, accumulate-more g e more, feed_more e d g m h more) passed,
        small,
        omega arith,
      )
  | inr end ↦
      let last : g.count + 1 ≡ 128 = omega (arith, m.small) in
      let (seen', left, passed, small, total) =
        check_samples_pass fresh (after_last e d g m h) (seen + 1) es (last-Mirrors e d g m h) hs in
      (
        seen',
        left,
        rw
            (
              push_of_fast g e h,
              accumulate-dump g e last,
              feed_last e d g m h last,
              eqb_refl (g.acc +ℤ e),
            )
            passed,
        small,
        omega arith,
      )
]
  where
    split : (n : ℕ) → (n + 1 < 128) ⊎ (128 ≤ n + 1)
    split n = omega arith

-- On a module in any state, for any samples of 15 bits that fill n frames of 128, no assertion of
-- the bench fails: every output is the model's, at the model's sample, and there are n.
pub decimator_bench_passes :
    (n : ℕ) (es : List ℤ) (d : DecimatorDut)
    → length es ≡ n * 128
    → IsFast es
    → matches_model n es d ≡ ok tt
unfolding matches_model reset write edges edge clock
decimator_bench_passes n es d len h =
    let q = record d.driven { aresetn = true; in_valid = false; e_fast = pos 0 } in
    let started : DecimatorDut = record {
      regs = record { acc = pos 0; count = 0; e_out = pos 0; out_valid = false };
      sampled = q;
      driven = q;
    } in
    let m : Mirrors started fresh = record {
      sampled_up = refl;
      sampled_still = refl;
      driven_up = refl;
      same_acc = refl;
      same_count = refl;
      small = omega arith;
      bounded = omega arith;
    } in
    let (seen, left, passed, small, total) = check_samples_pass fresh started 0 es m h in
    let right : (seen == n) ≡ true = ground arith in rw (passed, right) refl
