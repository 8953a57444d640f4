-- ===== src/Sim/PiBench/Rounds.antt =====
-- One tick of the bench of the controller: what it reads, and how it leaves the module.
use mathlib.Core.Path.{subst}
use coil_servo.Base.{◌≡◌, ◌∙◌, sym, ap, refl, arith, Bool, true, false, ◌||◌, if◌then◌else◌}
use coil_servo.Base.Int.{ℤ, pos, IsSigned}
use coil_servo.Signal.Pi.{FixedPi, new_pi, clear, step, u14_pre, next_acc, is_engaged}
use coil_servo.Signal.Pi as Model
use coil_servo.Hdl.Dut.{write, edge, edges}
use coil_servo.Hdl.Pi.{Stage, PiRegs, PiInputs, clock}
use coil_servo.Hdl.Pi.Stages.{quiet, IsCleared, clock-idle}
use coil_servo.Hdl.Pi.Exact.{Carries, exact_tick}
use coil_servo.Sim.PiBench.{PiDut, Event, tick}

-- Between two ticks: the state machine rests, the inputs are out of reset with no strobe, and an
-- asserted clear has been taken.
pub record IsResting (d : PiDut) : Type 0 where
  pub rests : d.regs.state ≡ Stage.idle
  pub sampled_up : d.sampled.aresetn ≡ true
  pub sampled_still : d.sampled.tick ≡ false
  pub taken : IsCleared d.sampled d.regs.acc
  pub driven_up : d.driven.aresetn ≡ true
  pub driven_still : d.driven.tick ≡ false

-- An edge at rest changes nothing.
clock_rest :
    (x : PiInputs) (r : PiRegs)
    → x.aresetn ≡ true
    → x.tick ≡ false
    → r.state ≡ Stage.idle
    → IsCleared x r.acc
    → clock x r ≡ r
clock_rest x r up still rests taken =
    clock-idle x r up still rests ∙ ap (λ a. record r { acc = a }) taken

-- A held model at an accumulator of zero keeps it there.
next_acc-IsCleared :
    (x : PiInputs) (c : FixedPi) (e : ℤ)
    → (x.int_clear ≡ true → c.acc ≡ pos 0)
    → IsCleared x (next_acc c e (x.int_hold || x.int_clear))
unfolding next_acc
next_acc-IsCleared x c e zero = ground arith

pub tick_out : (v : Event) (d : PiDut) → (tick v d).0 ≡ (tick v d).1.regs.u14
unfolding tick
tick_out v d = refl

-- What a tick of the bench drives.
abbrev strobe_of : Event → PiDut → PiInputs
strobe_of v d = record d.driven { int_hold = v.hold; int_clear = v.clears; e = v.e; tick = true }

module _ (v : Event) (d : PiDut) (c : FixedPi) (rest : IsResting d) (m : Carries d.driven c)
    (same : (if v.clears then pos 0 else d.regs.acc) ≡ c.acc) (e_fits : IsSigned 22 v.e)
    (acc_fits : IsSigned 48 c.acc) where
  abbrev after_five : PiRegs
  after_five =
      let x = strobe_of v d in
      clock (quiet x) (clock (quiet x) (clock (quiet x) (clock (quiet x) (clock x d.regs))))

  carried : Carries (strobe_of v d) c
  carried = record {
    kp_mant = m.kp_mant;
    kp_shift = m.kp_shift;
    ki_mant = m.ki_mant;
    ki_shift = m.ki_shift;
    clamp = m.clamp;
    kp_fits = m.kp_fits;
    ki_fits = m.ki_fits;
    clamp_fits = m.clamp_fits;
  }

  exact :
      (after_five.state ≡ Stage.idle)
      × (after_five.u14 ≡ Model.clamped c (u14_pre c v.e))
      × (after_five.out_sat ≡ is_engaged c v.e)
      × (after_five.acc ≡ next_acc c v.e (v.hold || v.clears))
  exact =
      exact_tick (strobe_of v d) d.regs c carried same e_fits acc_fits rest.driven_up refl
        rest.rests

  taken_after : IsCleared (quiet (strobe_of v d)) after_five.acc
  taken_after = rw exact.3 (
      next_acc-IsCleared (strobe_of v d) c v.e
        (λ h. sym same ∙ ap (λ (b : Bool). if b then pos 0 else d.regs.acc) h))

  -- The module after a tick of the bench.
  tick_regs : (tick v d).1 ≡ record {
    regs = after_five;
    sampled = quiet (strobe_of v d);
    driven = quiet (strobe_of v d);
  }
  unfolding tick edge edges write
  tick_regs =
      rw
        (
          clock_rest d.sampled d.regs rest.sampled_up rest.sampled_still rest.rests rest.taken,
          clock_rest (quiet (strobe_of v d)) after_five rest.driven_up refl exact.0 taken_after,
        )
        refl

  pub after_rests : IsResting (tick v d).1
  after_rests = subst IsResting (sym tick_regs) (record {
    rests = exact.0;
    sampled_up = rest.driven_up;
    sampled_still = refl;
    taken = taken_after;
    driven_up = rest.driven_up;
    driven_still = refl;
  })

  pub after-Carries : Carries (tick v d).1.driven (Model.tick c v.e (v.hold || v.clears)).1
  unfolding Model.tick
  after-Carries = rw tick_regs (record {
    kp_mant = m.kp_mant;
    kp_shift = m.kp_shift;
    ki_mant = m.ki_mant;
    ki_shift = m.ki_shift;
    clamp = m.clamp;
    kp_fits = m.kp_fits;
    ki_fits = m.ki_fits;
    clamp_fits = m.clamp_fits;
  })

  -- What the bench reads after a tick.
  pub got_out : (tick v d).0 ≡ (Model.tick c v.e (v.hold || v.clears)).0
  unfolding Model.tick
  got_out = tick_out v d ∙ ap (λ (t : PiDut). t.regs.u14) tick_regs ∙ exact.1

  pub got_acc : (tick v d).1.regs.acc ≡ (Model.tick c v.e (v.hold || v.clears)).1.acc
  unfolding Model.tick
  got_acc = ap (λ (t : PiDut). t.regs.acc) tick_regs ∙ exact.3

  pub got_sat : (tick v d).1.regs.out_sat ≡ is_engaged c v.e
  got_sat = ap (λ (t : PiDut). t.regs.out_sat) tick_regs ∙ exact.2
