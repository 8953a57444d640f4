-- ===== src/Sim/PiBench/Passes.antt =====
-- The bench of the controller passes on every input.
use mathlib.Core.Path.{subst}
use coil_servo.Base.{
  ℕ, ◌≤◌, ◌≡◌, ◌∙◌, refl, arith, Bool, true, false, not, ◌&&◌, ◌||◌, List, [], ◌∷◌, All,
  if◌then◌else◌, same_bool, ok,
}
use coil_servo.Base.Int.{ℤ, ◌+ℤ◌, ◌>>ℤ◌, pos, neg, IsSigned, eqb_ℤ, leb_ℤ, neg_parts}
use coil_servo.Signal.Pi.{FixedPi, new_pi, clear, step, u14_pre, next_acc, is_engaged}
use coil_servo.Signal.Pi as Model
use coil_servo.Signal.Pi.Clamp.{
  IsWithin, tick-IsWithin, tick_keeps_clamp, step_of_signed, next_acc-IsSigned,
}
use coil_servo.Hdl.Dut.{write, edge, edges, reset}
use coil_servo.Hdl.Pi.{clock}
use coil_servo.Hdl.Pi.Exact.{Carries}
use coil_servo.Sim.PiBench.{
  PiDut, Gains, Event, set_aresetn, apply_gains, tick, check_tick, check_ticks, check_gains,
  check_sets, bit_exact_against_model,
}
use coil_servo.Sim.PiBench.Rounds.{IsResting, got_out, got_acc, got_sat, after_rests, after-Carries}

-- The module is at rest beside a model with the same gains, clamp and accumulator.
record Mirrors (clamp : ℕ) (d : PiDut) (c : FixedPi) : Type 0 where
  resting : IsResting d
  carries : Carries d.driven c
  same_clamp : c.clamp ≡ pos clamp
  same : d.regs.acc ≡ c.acc
  fits : IsSigned 48 c.acc

-- The tests of the bench, from equations.
eqb_of_eq : (a b : ℤ) → a ≡ b → eqb_ℤ a b ≡ true
eqb_of_eq a b h = rw h (ground arith)

same_bool_refl : (a b : Bool) → a ≡ b → same_bool a b ≡ true
same_bool_refl a b h = ground arith

within_tests :
    (clamp : ℕ) (u : ℤ)
    → IsWithin (pos clamp) u
    → (leb_ℤ (neg (pos clamp)) u && leb_ℤ u (pos clamp)) ≡ true
within_tests clamp u h = ground (arith, neg_parts (pos clamp))

module _ (c : FixedPi) where
  model_sat :
      (e : ℤ) (hold : Bool)
      → is_engaged c e
        ≡ not (eqb_ℤ (Model.tick c e hold).0 (((Model.tick c e hold).1.u24 +ℤ pos 64) >>ℤ 7))
  unfolding Model.tick u14_pre
  model_sat e hold = refl

  model_fits : (e : ℤ) (hold : Bool) → IsSigned 48 c.acc → IsSigned 48 (Model.tick c e hold).1.acc
  unfolding Model.tick
  model_fits e hold h = next_acc-IsSigned c e hold h

  model-IsWithin :
      (clamp : ℕ) (e : ℤ) (hold : Bool)
      → c.clamp ≡ pos clamp
      → IsWithin (pos clamp) (Model.tick c e hold).0
  model-IsWithin clamp e hold k =
      subst (λ t. IsWithin t (Model.tick c e hold).0) k
        (tick-IsWithin c e hold (rw k (omega arith)))

-- The model as the bench prepares it for an event.
abbrev prepared : Bool → FixedPi → FixedPi
prepared clears g = if clears then clear g else g

module _ (clamp : ℕ) (d : PiDut) (g : FixedPi) (m : Mirrors clamp d g) where
  prepared-Carries : (b : Bool) → Carries d.driven (prepared b g)
  unfolding clear
  prepared-Carries true = record {
    kp_mant = m.carries.kp_mant;
    kp_shift = m.carries.kp_shift;
    ki_mant = m.carries.ki_mant;
    ki_shift = m.carries.ki_shift;
    clamp = m.carries.clamp;
    kp_fits = m.carries.kp_fits;
    ki_fits = m.carries.ki_fits;
    clamp_fits = m.carries.clamp_fits;
  }
  prepared-Carries false = m.carries

  prepared_same : (b : Bool) → (if b then pos 0 else d.regs.acc) ≡ (prepared b g).acc
  unfolding clear
  prepared_same true = refl
  prepared_same false = m.same

  prepared_fits : (b : Bool) → IsSigned 48 (prepared b g).acc
  unfolding clear
  prepared_fits true = omega arith
  prepared_fits false = m.fits

  prepared_clamp : (b : Bool) → (prepared b g).clamp ≡ pos clamp
  unfolding clear
  prepared_clamp true = m.same_clamp
  prepared_clamp false = m.same_clamp

  check_tick_passes :
      (v : Event)
      → IsSigned 22 v.e
      → let g' = (Model.tick (prepared v.clears g) v.e (v.hold || v.clears)).1 in
        (check_tick clamp g d v ≡ ok (g', (tick v d).1)) × Mirrors clamp (tick v d).1 g'
  unfolding check_tick
  check_tick_passes v fits =
      let b = v.clears in
      let h = v.hold || v.clears in
      let c = prepared b g in
      let carries = prepared-Carries b in
      let same = prepared_same b in
      let acc_fits = prepared_fits b in
      let got = got_out v d c m.resting carries same fits acc_fits in
      let acc = got_acc v d c m.resting carries same fits acc_fits in
      let sat = got_sat v d c m.resting carries same fits acc_fits in
      (
        rw
            (
              step_of_signed c v.e h fits,
              eqb_of_eq (tick v d).0 (Model.tick c v.e h).0 got,
              within_tests clamp (tick v d).0
                  (rw got (model-IsWithin c clamp v.e h (prepared_clamp b))),
              eqb_of_eq (tick v d).1.regs.acc (Model.tick c v.e h).1.acc acc,
              same_bool_refl (tick v d).1.regs.out_sat _ (sat ∙ model_sat c v.e h),
            )
            refl,
        record {
          resting = after_rests v d c m.resting carries same fits acc_fits;
          carries = after-Carries v d c m.resting carries same fits acc_fits;
          same_clamp = tick_keeps_clamp c v.e h ∙ prepared_clamp b;
          same = acc;
          fits = model_fits c v.e h acc_fits;
        },
      )

-- The events of the bench, and the ports' widths of the gains.
abbrev pub AreFast : List Event → Type 0
AreFast vs = All (λ v. IsSigned 22 v.e) vs

pub record AreGains (g : Gains) : Type 0 where
  pub kp_fits : IsSigned 18 g.kp_m
  pub ki_fits : IsSigned 18 g.ki_m

check_ticks_pass :
    (clamp : ℕ) (d : PiDut) (g : FixedPi) (vs : List Event)
    → Mirrors clamp d g
    → AreFast vs
    → (d' : PiDut) × (check_ticks clamp g d vs ≡ ok d') × IsResting d'
unfolding check_ticks
check_ticks_pass clamp d g [] m h = (d, refl, m.resting)
check_ticks_pass clamp d g (v ∷ vs) m (h, hs) =
    let (passed, next) = check_tick_passes clamp d g m v h in
    let (d', rest, quiet_at_end) =
      check_ticks_pass clamp (tick v d).1
        (Model.tick (prepared v.clears g) v.e (v.hold || v.clears)).1 vs next hs in
    (d', rw (passed, rest) refl, quiet_at_end)

-- The module after `reset` and the new model.
abbrev started : ℕ → PiDut → Gains → PiDut
started clamp d g =
    reset clock set_aresetn
      (write (λ x. record x { int_hold = false; int_clear = false }) (apply_gains g clamp d))

started-Mirrors :
    (clamp : ℕ) (d : PiDut) (g : Gains)
    → d.driven.tick ≡ false
    → AreGains g
    → clamp ≤ 8191
    → Mirrors clamp (started clamp d g) (new_pi g.kp_m g.kp_s g.ki_m g.ki_s (pos clamp))
unfolding reset write apply_gains edges edge clock new_pi
started-Mirrors clamp d g still a small = record {
  resting = record {
    rests = refl;
    sampled_up = refl;
    sampled_still = still;
    taken = refl;
    driven_up = refl;
    driven_still = still;
  };
  carries = record {
    kp_mant = refl;
    kp_shift = refl;
    ki_mant = refl;
    ki_shift = refl;
    clamp = refl;
    kp_fits = a.kp_fits;
    ki_fits = a.ki_fits;
    clamp_fits = small;
  };
  same_clamp = refl;
  same = refl;
  fits = omega arith;
}

check_sets_pass :
    (clamp : ℕ) (d : PiDut) (sets : List (Gains × List Event))
    → d.driven.tick ≡ false
    → clamp ≤ 8191
    → All (λ s. AreGains s.0 × AreFast s.1) sets
    → (d' : PiDut) × (check_sets clamp d sets ≡ ok d')
unfolding check_sets check_gains
check_sets_pass clamp d [] still small h = (d, refl)
check_sets_pass clamp d ((g, vs) ∷ sets) still small ((a, fast), hs) =
    let (d', passed, rests) =
      check_ticks_pass clamp (started clamp d g) (new_pi g.kp_m g.kp_s g.ki_m g.ki_s (pos clamp)) vs
        (started-Mirrors clamp d g still a small) fast in
    let (d'', rest) = check_sets_pass clamp d' sets rests.driven_still small hs in
    (d'', rw (passed, rest) refl)

-- On a module in any state, with any gains of 18 bits, any errors of 22 bits and any holds and clears
-- in any number and order, and a clamp that is a DAC code, no assertion of the bench fails.
pub bit_exact_passes :
    (clamp : ℕ) (d : PiDut) (sets : List (Gains × List Event))
    → clamp ≤ 8191
    → All (λ s. AreGains s.0 × AreFast s.1) sets
    → (d' : PiDut) × (bit_exact_against_model clamp d sets ≡ ok d')
unfolding bit_exact_against_model write
bit_exact_passes clamp d sets small h =
    check_sets_pass clamp (write (λ x. record x { tick = false }) d) sets refl small h
