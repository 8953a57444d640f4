-- ===== src/Hdl/FlipFsm/Outputs.antt =====
-- What the outputs of the state machine are in each state.
use coil_servo.Base.{◌≡◌, refl, arith, Bool, true, false, not, List, [], ◌∷◌}
use coil_servo.Hdl.FlipFsm.{State, Fsm, Inputs, reset_fsm, clock}

-- The states with the bridge closed.
abbrev pub is_closed : State → Bool
is_closed State.idle = false
is_closed State.dis = false
is_closed State.flip = false
is_closed State.running = true
is_closed State.ramp = true
is_closed State.en = true
is_closed State.settling = true
is_closed State.thold = true

abbrev pub is_running : State → Bool
is_running State.running = true
is_running State.idle = false
is_running State.dis = false
is_running State.flip = false
is_running State.ramp = false
is_running State.en = false
is_running State.settling = false
is_running State.thold = false

-- The outputs follow the state: the bridge is closed in the closed states alone, the integrator is
-- held exactly while it is open, and the setpoint is released in RUN alone.
pub record Fits (s : Fsm) : Type 0 where
  pub bridge : s.bridge_en ≡ is_closed s.state
  pub held : s.int_hold ≡ not (is_closed s.state)
  pub forced : s.sp_force_zero ≡ not (is_running s.state)

-- The registers after a run of clocks from some state.
unfoldable pub run : Fsm → List Inputs → Fsm
run s [] = s
run s (x ∷ xs) = run (clock x s) xs

pub reset-Fits : Fits reset_fsm
reset-Fits = record { bridge = refl; held = refl; forced = refl }

pub clock-Fits : (x : Inputs) (s : Fsm) → Fits s → Fits (clock x s)
unfolding clock
clock-Fits x s f = ground arith

pub run-Fits : (s : Fsm) (xs : List Inputs) → Fits s → Fits (run s xs)
unfolding run
run-Fits s [] f = f
run-Fits s (x ∷ xs) f = run-Fits (clock x s) xs (clock-Fits x s f)
