-- ===== src/Hdl/FlipFsm/Stops.antt =====
-- The graceful stop comes to an end.
use coil_servo.Base.{
  ℕ, ◌+◌, ◌-◌, ◌*◌, ◌^◌, ◌≤◌, ◌<◌, ◌≡◌, ◌∙◌, ap, arith, Bool, true, false, List, [], ◌∷◌, All,
  bool_to_ℕ,
}
use coil_servo.Hdl.FlipFsm.{State, Fsm, Inputs, reset_fsm, clock, in_window}
use coil_servo.Hdl.FlipFsm.Outputs.{is_closed, reset-Fits, run, run-Fits}

-- What a stop waits for: `servo_enable` stays low, the current stays in the window, and the
-- registers of the hold-off and of the dead time keep their values.
pub record IsStopping (holdoff deadtime : ℕ) (x : Inputs) : Type 0 where
  pub up : x.aresetn ≡ true
  pub low : x.servo_enable ≡ false
  pub small : in_window x ≡ true
  pub same_holdoff : x.zero_holdoff ≡ holdoff
  pub same_deadtime : x.deadtime ≡ deadtime

module _ (holdoff deadtime : ℕ) where
  -- The clocks that a dead time still takes from a timer, the edge that ends it included.
  abbrev wait_left : ℕ → ℕ
  wait_left timer = deadtime - timer + 1

  -- The samples that a ramp still takes from a count.
  abbrev ramp_left : ℕ → ℕ
  ramp_left win_cnt = holdoff - win_cnt + 1

  -- From the start of a stop, from the end of a flip.
  abbrev stop_left : ℕ
  stop_left = ramp_left 0 + wait_left 0

  -- An upper bound of the samples until IDLE.
  abbrev pub left_in : State → Bool → ℕ → ℕ → ℕ
  left_in State.idle stop timer win_cnt = 0
  left_in State.dis true timer win_cnt = wait_left timer
  left_in State.ramp true timer win_cnt = ramp_left win_cnt + wait_left 0
  left_in State.running stop timer win_cnt = stop_left + 1
  left_in State.settling stop timer win_cnt = stop_left + 1
  left_in State.thold stop timer win_cnt = stop_left + 1
  left_in State.en stop timer win_cnt = stop_left + 2
  left_in State.flip stop timer win_cnt = wait_left timer + (stop_left + 2)
  left_in State.dis false timer win_cnt = wait_left timer + (wait_left 0 + (stop_left + 2))
  left_in State.ramp false timer win_cnt =
      ramp_left win_cnt + (wait_left 0 + (wait_left 0 + (stop_left + 2)))

  abbrev pub left : Fsm → ℕ
  left s = left_in s.state s.stop_req s.timer s.win_cnt

-- The decimated samples among the edges.
unfoldable pub sample_count : List Inputs → ℕ
sample_count [] = 0
sample_count (x ∷ xs) = bool_to_ℕ x.tick + sample_count xs

left-clock :
    (holdoff deadtime : ℕ) (x : Inputs) (s : Fsm)
    → IsStopping holdoff deadtime x
    → holdoff < 2 ^ 16
    → deadtime < 2 ^ 16
    → left holdoff deadtime (clock x s) ≤ left holdoff deadtime s - bool_to_ℕ x.tick
unfolding clock
left-clock holdoff deadtime x s g hh hd = ground arith

left-run :
    (holdoff deadtime : ℕ) (xs : List Inputs) (s : Fsm)
    → All (IsStopping holdoff deadtime) xs
    → holdoff < 2 ^ 16
    → deadtime < 2 ^ 16
    → left holdoff deadtime (run s xs) ≤ left holdoff deadtime s - sample_count xs
unfolding run sample_count
left-run holdoff deadtime [] s g hh hd = omega arith
left-run holdoff deadtime (x ∷ xs) s (g, gs) hh hd = omega (
  arith,
  left-run holdoff deadtime xs (clock x s) gs hh hd,
  left-clock holdoff deadtime x s g hh hd,
)

left-le :
    (holdoff deadtime : ℕ) (s : Fsm) → left holdoff deadtime s ≤ 2 * holdoff + 3 * deadtime + 7
left-le holdoff deadtime s = ground arith

idle_of_left : (holdoff deadtime : ℕ) (s : Fsm) → left holdoff deadtime s ≡ 0 → s.state ≡ State.idle
idle_of_left holdoff deadtime s h = ground arith

-- From any registers that a run from reset gives, with the enable low, the current in the window
-- and the registers of the hold-off and of the dead time kept, the machine is in IDLE with the
-- bridge open after 2 · zero_holdoff + 3 · deadtime + 7 decimated samples or more.
pub stop_ends :
    (holdoff deadtime : ℕ) (before xs : List Inputs)
    → All (IsStopping holdoff deadtime) xs
    → holdoff < 2 ^ 16
    → deadtime < 2 ^ 16
    → 2 * holdoff + 3 * deadtime + 7 ≤ sample_count xs
    → let s = run (run reset_fsm before) xs in (s.state ≡ State.idle) × (s.bridge_en ≡ false)
stop_ends holdoff deadtime before xs g hh hd enough =
    let s = run reset_fsm before in
    let parked : (run s xs).state ≡ State.idle =
      idle_of_left holdoff deadtime (run s xs)
        (omega (arith, left-run holdoff deadtime xs s g hh hd, left-le holdoff deadtime s)) in
    (parked, (run-Fits s xs (run-Fits reset_fsm before reset-Fits)).bridge ∙ ap is_closed parked)
