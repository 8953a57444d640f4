-- ===== src/Hdl/FlipFsm/Window.antt =====
-- When the state machine opens the bridge: only at a current that has been in the window for long.
use coil_servo.Base.{ℕ, ◌+◌, ◌≤◌, ◌≡◌, arith, true, false, List, [], ◌∷◌, if◌then◌else◌}
use coil_servo.Hdl.FlipFsm.{State, Fsm, Inputs, reset_fsm, clock, in_window}
use coil_servo.Hdl.FlipFsm.Outputs.{Fits, reset-Fits, clock-Fits, run}

-- The number of decimated samples in a row, up to now, that lay in the window.
unfoldable pub streak_step : ℕ → Inputs → ℕ
streak_step n x = if x.tick then (if in_window x then n + 1 else 0) else n

pub streak : ℕ → List Inputs → ℕ
streak n [] = n
streak n (x ∷ xs) = streak (streak_step n x) xs

-- The counter of the ramp never runs ahead of the samples.
record IsCounted (n : ℕ) (s : Fsm) : Type 0 where
  fits : Fits s
  counted : s.state ≡ State.ramp → s.win_cnt ≤ n

clock-IsCounted :
    (n : ℕ) (x : Inputs) (s : Fsm) → IsCounted n s → IsCounted (streak_step n x) (clock x s)
unfolding clock streak_step
clock-IsCounted n x s c = record { fits = clock-Fits x s c.fits; counted = ground arith }

run-IsCounted :
    (n : ℕ) (xs : List Inputs) (s : Fsm) → IsCounted n s → IsCounted (streak n xs) (run s xs)
unfolding streak run
run-IsCounted n [] s c = c
run-IsCounted n (x ∷ xs) s c =
    run-IsCounted (streak_step n x) xs (clock x s) (clock-IsCounted n x s c)

opens :
    (n : ℕ) (x : Inputs) (s : Fsm)
    → IsCounted n s
    → x.aresetn ≡ true
    → s.bridge_en ≡ true
    → (clock x s).bridge_en ≡ false
    → (x.tick ≡ true) × (in_window x ≡ true) × (x.zero_holdoff ≤ n + 1)
unfolding clock
opens n x s c up closed opened = ground arith

-- After a reset and any inputs: an edge out of reset that opens a closed bridge takes a decimated
-- sample inside the zero window, the last of at least zero_holdoff such samples in a row.
pub bridge_opens_at_zero :
    (xs : List Inputs) (x : Inputs)
    → x.aresetn ≡ true
    → (run reset_fsm xs).bridge_en ≡ true
    → (clock x (run reset_fsm xs)).bridge_en ≡ false
    → (x.tick ≡ true) × (in_window x ≡ true) × (x.zero_holdoff ≤ streak 0 xs + 1)
bridge_opens_at_zero xs x up closed opened =
    opens (streak 0 xs) x (run reset_fsm xs)
      (run-IsCounted 0 xs reset_fsm (record { fits = reset-Fits; counted = ground arith })) up
      closed opened
