-- ===== src/Hdl/FlipFsm/Turns.antt =====
-- A requested flip comes to an end, with the polarity turned once.
use coil_servo.Base.{
  ℕ, ◌+◌, ◌-◌, ◌*◌, ◌^◌, ◌≤◌, ◌<◌, ◌≡◌, ◌∙◌, ap, arith, Bool, true, false, not, List, [], ◌∷◌, All,
  bool_to_ℕ,
}
use coil_servo.Hdl.FlipFsm.{State, Fsm, Inputs, reset_fsm, clock, in_window}
use coil_servo.Hdl.FlipFsm.Outputs.{is_closed, is_running, reset-Fits, clock-Fits, run, run-Fits}
use coil_servo.Hdl.FlipFsm.Stops.{sample_count}

-- What a flip waits for: the servo stays enabled, the current stays in the window, the time-out is
-- off, no second flip is asked for, and the delays keep their values.
pub record IsTurning (holdoff deadtime settle : ℕ) (x : Inputs) : Type 0 where
  pub up : x.aresetn ≡ true
  pub enabled : x.servo_enable ≡ true
  pub single : x.flip_req ≡ false
  pub small : in_window x ≡ true
  pub patient : x.flip_timeout ≡ 0
  pub same_holdoff : x.zero_holdoff ≡ holdoff
  pub same_deadtime : x.deadtime ≡ deadtime
  pub same_settle : x.settle ≡ settle

module _ (holdoff deadtime settle : ℕ) where
  -- An upper bound of the samples until RUN, in the states of a flip.
  abbrev left_in : State → ℕ → ℕ → ℕ
  left_in State.running timer win_cnt = 0
  left_in State.settling timer win_cnt = settle - timer + 1
  left_in State.en timer win_cnt = settle + 2
  left_in State.flip timer win_cnt = deadtime - timer + settle + 3
  left_in State.dis timer win_cnt = deadtime - timer + deadtime + settle + 4
  left_in State.ramp timer win_cnt = holdoff - win_cnt + deadtime + deadtime + settle + 5
  left_in State.idle timer win_cnt = 0
  left_in State.thold timer win_cnt = 0

  abbrev left : Fsm → ℕ
  left s = left_in s.state s.timer s.win_cnt

-- The states of a flip, with the polarity that they have: the old one until the bridge has been open
-- for the dead time.
abbrev polarity_in : Bool → State → Bool
polarity_in old State.ramp = old
polarity_in old State.dis = old
polarity_in old State.flip = not old
polarity_in old State.en = not old
polarity_in old State.settling = not old
polarity_in old State.running = not old
polarity_in old State.idle = old
polarity_in old State.thold = old

abbrev is_flip_state : State → Bool
is_flip_state State.ramp = true
is_flip_state State.dis = true
is_flip_state State.flip = true
is_flip_state State.en = true
is_flip_state State.settling = true
is_flip_state State.running = true
is_flip_state State.idle = false
is_flip_state State.thold = false

-- A flip from the polarity `old` is under way or done. EN is entered with the timer at zero.
record IsUnderway (old : Bool) (s : Fsm) : Type 0 where
  among : is_flip_state s.state ≡ true
  no_stop : s.stop_req ≡ false
  turned : s.polarity ≡ polarity_in old s.state
  fresh_en : s.state ≡ State.en → s.timer ≡ 0

clock-IsUnderway :
    (holdoff deadtime settle : ℕ) (old : Bool) (x : Inputs) (s : Fsm)
    → IsTurning holdoff deadtime settle x
    → IsUnderway old s
    → IsUnderway old (clock x s)
unfolding clock
clock-IsUnderway holdoff deadtime settle old x s g u = ground arith

left-clock :
    (holdoff deadtime settle : ℕ) (old : Bool) (x : Inputs) (s : Fsm)
    → IsTurning holdoff deadtime settle x
    → holdoff < 2 ^ 16
    → deadtime < 2 ^ 16
    → settle < 2 ^ 32
    → IsUnderway old s
    → left holdoff deadtime settle (clock x s) ≤ left holdoff deadtime settle s - bool_to_ℕ x.tick
unfolding clock
left-clock holdoff deadtime settle old x s g hh hd hs u = ground arith

run-IsUnderway :
    (holdoff deadtime settle : ℕ) (old : Bool) (xs : List Inputs) (s : Fsm)
    → All (IsTurning holdoff deadtime settle) xs
    → IsUnderway old s
    → IsUnderway old (run s xs)
unfolding run
run-IsUnderway holdoff deadtime settle old [] s g u = u
run-IsUnderway holdoff deadtime settle old (x ∷ xs) s (g, gs) u =
    run-IsUnderway holdoff deadtime settle old xs (clock x s) gs
      (clock-IsUnderway holdoff deadtime settle old x s g u)

left-run :
    (holdoff deadtime settle : ℕ) (old : Bool) (xs : List Inputs) (s : Fsm)
    → All (IsTurning holdoff deadtime settle) xs
    → holdoff < 2 ^ 16
    → deadtime < 2 ^ 16
    → settle < 2 ^ 32
    → IsUnderway old s
    → left holdoff deadtime settle (run s xs) ≤ left holdoff deadtime settle s - sample_count xs
unfolding run sample_count
left-run holdoff deadtime settle old [] s g hh hd hs u = omega arith
left-run holdoff deadtime settle old (x ∷ xs) s (g, gs) hh hd hs u = omega (
  arith,
  left-run holdoff deadtime settle old xs (clock x s) gs hh hd hs
      (clock-IsUnderway holdoff deadtime settle old x s g u),
  left-clock holdoff deadtime settle old x s g hh hd hs u,
)

running_of_left :
    (holdoff deadtime settle : ℕ) (old : Bool) (s : Fsm)
    → IsUnderway old s
    → left holdoff deadtime settle s ≡ 0
    → s.state ≡ State.running
running_of_left holdoff deadtime settle old s u h = ground arith

-- The edge that takes the request.
requested :
    (x : Inputs) (s : Fsm)
    → s.state ≡ State.running
    → x.aresetn ≡ true
    → x.servo_enable ≡ true
    → x.flip_req ≡ true
    → x.armed ≡ true
    → IsUnderway s.polarity (clock x s)
      × ((clock x s).state ≡ State.ramp)
      × ((clock x s).win_cnt ≡ 0)
unfolding clock
requested x s at up enabled asked armed = ground arith

-- From RUN, reached from reset by any inputs, an edge out of reset with the flip request on an armed
-- and enabled servo, and then inputs out of reset on which servo_enable stays high, no further flip
-- request comes, the current is in the window, the time-out is off and the delays are kept: after
-- zero_holdoff + 2 · deadtime + settle + 5 decimated samples or more the machine is in RUN again with
-- the bridge closed, the setpoint released and the other polarity.
pub flip_ends :
    (holdoff deadtime settle : ℕ) (before : List Inputs) (x : Inputs) (xs : List Inputs)
    → (run reset_fsm before).state ≡ State.running
    → (x.aresetn ≡ true) × (x.servo_enable ≡ true) × (x.flip_req ≡ true) × (x.armed ≡ true)
    → All (IsTurning holdoff deadtime settle) xs
    → (holdoff < 2 ^ 16) × (deadtime < 2 ^ 16) × (settle < 2 ^ 32)
    → holdoff + 2 * deadtime + settle + 5 ≤ sample_count xs
    → let s = run reset_fsm before in
      let t = run (clock x s) xs in
      (t.state ≡ State.running)
      × (t.bridge_en ≡ true)
      × (t.sp_force_zero ≡ false)
      × (t.polarity ≡ not s.polarity)
flip_ends holdoff deadtime settle before x xs at (up, enabled, asked, armed) g (hh, hd, hs) enough =
    let s = run reset_fsm before in
    let (start, ramp, zero) = requested x s at up enabled asked armed in
    let t = run (clock x s) xs in
    let under = run-IsUnderway holdoff deadtime settle s.polarity xs (clock x s) g start in
    let all : left holdoff deadtime settle (clock x s)
        ≡ holdoff + deadtime + deadtime + settle + 5 =
      rw (ramp, zero) (omega arith) in
    let there : t.state ≡ State.running =
      running_of_left holdoff deadtime settle s.polarity t under (
        omega (
          arith,
          all,
          left-run holdoff deadtime settle s.polarity xs (clock x s) g hh hd hs start,
        )) in
    let fits = run-Fits (clock x s) xs (clock-Fits x s (run-Fits reset_fsm before reset-Fits)) in
    (
      there,
      fits.bridge ∙ ap is_closed there,
      fits.forced ∙ ap (λ k. not (is_running k)) there,
      under.turned ∙ ap (polarity_in s.polarity) there,
    )
