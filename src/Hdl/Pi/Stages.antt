-- ===== src/Hdl/Pi/Stages.antt =====
-- One tick of servo_pi.v: five edges of its state machine, and what the registers hold after them.
use coil_servo.Base.{ap, ◌∙◌, ◌≡◌, refl, arith, Bool, true, false, if◌then◌else◌}
use coil_servo.Base.Int.{ℤ, pos, ◌*ℤ◌, ◌>>ℤ◌}
use coil_servo.Hdl.Wires.{as_signed}
use coil_servo.Hdl.Pi.{Stage, PiRegs, PiInputs, sat24, sum_pi, clock, after_clear, stage_case}

-- The inputs of a tick once the strobe has gone.
abbrev pub quiet : PiInputs → PiInputs
quiet x = record x { tick = false }

clock_up :
    (x : PiInputs) (r : PiRegs)
    → x.aresetn ≡ true
    → clock x r ≡ stage_case r.state x r (after_clear x r)
unfolding clock
clock_up x r h = rw h refl

-- In IDLE with no strobe only a clear does anything.
pub clock-idle :
    (x : PiInputs) (r : PiRegs)
    → x.aresetn ≡ true
    → x.tick ≡ false
    → r.state ≡ Stage.idle
    → clock x r ≡ after_clear x r
unfolding clock stage_case
clock-idle x r up still rest = rw (up, rest, still) refl

-- An accumulator that a clear leaves alone, since none is asked for or it has been cleared.
abbrev pub IsCleared : PiInputs → ℤ → Type 0
IsCleared x a = (if x.int_clear then pos 0 else a) ≡ a

after_clear-IsCleared : (x : PiInputs) (a : ℤ) → IsCleared x (if x.int_clear then pos 0 else a)
after_clear-IsCleared x a = ground arith

pub clock_at :
    (x : PiInputs) (r : PiRegs) (s : Stage)
    → x.aresetn ≡ true
    → r.state ≡ s
    → IsCleared x r.acc
    → clock x r ≡ stage_case s x r r
clock_at x r s up at kept =
    clock_up x r up
    ∙ ap (λ t. stage_case t x r (after_clear x r)) at
    ∙ ap (λ a. stage_case s x r (record r { acc = a })) kept

module _ (x : PiInputs) (r : PiRegs) where
  -- The accumulator that the tick reads.
  abbrev pub acc_read : ℤ
  acc_read = if x.int_clear then pos 0 else r.acc

  -- The registers after the edge of the strobe and the three that follow.
  abbrev after_idle : PiRegs
  after_idle = record r { acc = acc_read; e_r = x.e; state = Stage.mul }

  abbrev after_mul : PiRegs
  after_mul = record after_idle {
    p_full = as_signed 40 (x.e *ℤ x.kp_mant);
    ki_prod = as_signed 40 (x.e *ℤ x.ki_mant);
    state = Stage.shift;
  }

  abbrev after_shift : PiRegs
  after_shift = record after_mul {
    p_term = sat24 (as_signed 49 (after_mul.p_full >>ℤ x.kp_shift));
    i_term = sat24 (as_signed 49 (acc_read >>ℤ x.ki_shift));
    state = Stage.sum;
  }

  abbrev pub before_out : PiRegs
  before_out = record after_shift {
    u24 = sat24 (as_signed 49 (sum_pi after_shift));
    state = Stage.out;
  }

  strobed : x.aresetn ≡ true → x.tick ≡ true → r.state ≡ Stage.idle → clock x r ≡ after_idle
  unfolding stage_case
  strobed up strobe rest =
      clock_up x r up
      ∙ ap (λ t. stage_case t x r (after_clear x r)) rest
      ∙ ap (λ (t : Bool). if t then after_idle else after_clear x r) strobe

  pub five_edges :
      x.aresetn ≡ true
      → x.tick ≡ true
      → r.state ≡ Stage.idle
      → clock (quiet x) (clock (quiet x) (clock (quiet x) (clock (quiet x) (clock x r))))
        ≡ stage_case Stage.out (quiet x) before_out before_out
  unfolding stage_case
  five_edges up strobe rest =
      let kept = after_clear-IsCleared x r.acc in
      rw
        (
          strobed up strobe rest,
          clock_at (quiet x) after_idle Stage.mul up refl kept,
          clock_at (quiet x) after_mul Stage.shift up refl kept,
          clock_at (quiet x) after_shift Stage.sum up refl kept,
        )
        (clock_at (quiet x) before_out Stage.out up refl kept)
