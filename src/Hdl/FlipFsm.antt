-- ===== src/Hdl/FlipFsm.antt =====
-- modules/servo_flip_fsm.v: the state machine that turns the bridge. `clock` is the clocked block.
pub mod Outputs
pub mod Monitor
pub mod Window
pub mod Stops
pub mod Turns
use coil_servo.Base.{
  ℕ, ◌+◌, ◌*◌, ◌%◌, ◌^◌, Bool, true, false, not, ◌&&◌, ◌||◌, if◌then◌else◌, ltb, leb, ◌==◌,
}
use coil_servo.Base.Int.{ℤ, abs_ℤ}

pub data State : Type 0 where
  idle running ramp dis flip en settling thold : State

pub record Fsm : Type 0 where
  pub state : State
  pub bridge_en : Bool
  pub polarity : Bool
  pub sp_force_zero : Bool
  pub int_clear : Bool
  pub int_hold : Bool
  pub stop_req : Bool
  -- 32 bits
  pub timer : ℕ
  -- 16 bits
  pub win_cnt : ℕ

pub record Inputs : Type 0 where
  pub aresetn : Bool
  pub servo_enable : Bool
  pub armed : Bool
  pub flip_req : Bool
  pub flip_fault_ack : Bool
  pub tick : Bool
  pub i_meas : ℤ
  pub zero_win : ℕ
  pub zero_holdoff : ℕ
  pub deadtime : ℕ
  pub settle : ℕ
  pub flip_timeout : ℕ

-- `in_window`: the magnitude of the current against the window of 14 bits, in counts of 128.
unfoldable pub in_window : Inputs → Bool
in_window x = ltb (abs_ℤ x.i_meas) (x.zero_win * 128)

-- The reset branch.
abbrev pub reset_fsm : Fsm
reset_fsm = record {
  state = State.idle;
  bridge_en = false;
  polarity = false;
  sp_force_zero = true;
  int_clear = false;
  int_hold = true;
  stop_req = false;
  timer = 0;
  win_cnt = 0;
}

-- `timer <= timer + 32'd1`.
abbrev pub count_up : Fsm → Fsm
count_up s = record s { timer = (s.timer + 1) % 2 ^ 32 }

-- Whether a cleared `servo_enable` starts a graceful stop in this state.
abbrev pub can_stop : State → Bool
can_stop State.running = true
can_stop State.settling = true
can_stop State.thold = true
can_stop State.idle = false
can_stop State.ramp = false
can_stop State.dis = false
can_stop State.flip = false
can_stop State.en = false

-- To RAMP_DOWN, for a stop or for a flip.
abbrev pub ramp_down : Bool → Fsm → Fsm
ramp_down stop s = record s {
  state = State.ramp;
  stop_req = stop;
  sp_force_zero = true;
  timer = 0;
  win_cnt = 0;
}

-- S_RAMP.
pub ramp_case : Inputs → Fsm → Fsm
unfolding in_window
ramp_case x s =
    if x.tick && (in_window x && leb x.zero_holdoff (s.win_cnt + 1))
    then record s { state = State.dis; bridge_en = false; int_hold = true; timer = 0 }
    else let s' =
        if x.tick
        then record s { win_cnt = if in_window x then (s.win_cnt + 1) % 2 ^ 16 else 0 }
        else s in
      if not s.stop_req && (not (x.flip_timeout == 0) && leb x.flip_timeout s.timer)
      then record s' { state = State.thold }
      else count_up s'

-- S_DIS.
pub dis_case : Inputs → Fsm → Fsm
dis_case x s =
    if leb x.deadtime s.timer
    then if s.stop_req
      then record s { state = State.idle }
      else record s { state = State.flip; polarity = not s.polarity; timer = 0 }
    else count_up s

-- The `case` statement.
pub state_case : State → Inputs → Fsm → Fsm
unfolding ramp_case dis_case
state_case State.idle x s =
    let off = record s {
      bridge_en = false;
      sp_force_zero = true;
      int_hold = true;
      stop_req = false;
    } in
    if x.servo_enable && x.armed
    then record off {
      state = State.running;
      bridge_en = true;
      sp_force_zero = false;
      int_hold = false;
      int_clear = true;
    }
    else off
state_case State.running x s = if x.flip_req && x.armed then ramp_down false s else s
state_case State.ramp x s = ramp_case x s
state_case State.dis x s = dis_case x s
state_case State.flip x s =
    if leb x.deadtime s.timer
    then record s {
      state = State.en;
      bridge_en = true;
      int_clear = true;
      int_hold = false;
      timer = 0;
    }
    else count_up s
state_case State.en x s = record s { state = State.settling }
state_case State.settling x s =
    if leb x.settle s.timer
    then record s { state = State.running; sp_force_zero = false }
    else count_up s
state_case State.thold x s =
    if x.flip_fault_ack then record s { state = State.running; sp_force_zero = false } else s

-- One rising edge of `aclk`. The pulse `int_clear` falls by default.
unfoldable pub clock : Inputs → Fsm → Fsm
unfolding state_case
clock x s =
    if not x.aresetn
    then reset_fsm
    else let lowered = record s { int_clear = false } in
      if not x.servo_enable && can_stop s.state
      then ramp_down true lowered
      else state_case s.state x lowered
