-- ===== src/Hdl/FlipFsm/Monitor.antt =====
-- `invariant_monitor` of sim/tb_servo_flip_fsm.py, which runs beside every test of the state machine.
use coil_servo.Base.{
  ℕ, ◌+◌, ◌^◌, ◌≤◌, ◌≡◌, ◌⊎◌, inl, refl, arith, Bool, true, false, not, ◌||◌, List, [], ◌∷◌, All,
  if◌then◌else◌, same_bool, leb, Result, ok, Error, guard, ◌>>=◌, ◌>>◌,
}
use coil_servo.Hdl.FlipFsm.{State, Fsm, Inputs, reset_fsm, clock}
use coil_servo.Hdl.FlipFsm.Outputs.{Fits, reset-Fits, clock-Fits}

-- The local variables of the monitor.
pub record Monitor : Type 0 where
  pub prev_pol : Bool
  pub bridge_low_for : ℕ

-- `st in (S_DIS, S_FLIP)`.
abbrev is_turning : State → Bool
is_turning State.dis = true
is_turning State.flip = true
is_turning State.idle = false
is_turning State.running = false
is_turning State.ramp = false
is_turning State.en = false
is_turning State.settling = false
is_turning State.thold = false

-- The start: the polarity as it stands, and the bridge taken as open for long.
unfoldable pub start : Fsm → Monitor
start s = record { prev_pol = s.polarity; bridge_low_for = 10 ^ 9 }

-- One round: `deadtime` is the constant DEADTIME of the bench.
unfoldable pub observe : ℕ → Monitor → Fsm → Result Monitor
observe deadtime m s = do
  guard (same_bool s.polarity m.prev_pol || not s.bridge_en) Error.assertion_error
  guard (same_bool s.polarity m.prev_pol || leb deadtime m.bridge_low_for) Error.assertion_error
  guard (not (is_turning s.state) || not s.bridge_en) Error.assertion_error
  ok (record {
    prev_pol = s.polarity;
    bridge_low_for = if s.bridge_en then 0 else m.bridge_low_for + 1;
  })

-- The monitor beside a run: at each edge it reads the registers before they take the edge.
pub watch : ℕ → Monitor → Fsm → List Inputs → Result Monitor
watch deadtime m s [] = ok m
watch deadtime m s (x ∷ xs) = do m' ← observe deadtime m s; watch deadtime m' (clock x s) xs

-- Inputs with the dead time of the bench, out of reset.
abbrev pub IsDriven : ℕ → Inputs → Type 0
IsDriven deadtime x = (x.aresetn ≡ true) × (x.deadtime ≡ deadtime)

-- What the monitor's variables have to do with the registers: the wait in DISABLE is no longer than
-- the bridge has been open, and a polarity that it has not seen yet was taken with the bridge open
-- for the dead time.
record Follows (deadtime : ℕ) (m : Monitor) (s : Fsm) : Type 0 where
  fits : Fits s
  waited : s.state ≡ State.dis → s.timer ≤ m.bridge_low_for
  turned : (s.polarity ≡ m.prev_pol) ⊎ ((s.bridge_en ≡ false) × (deadtime ≤ m.bridge_low_for))

-- A round passes and the next registers are followed.
observe-Follows :
    (deadtime : ℕ) (m : Monitor) (s : Fsm) (x : Inputs)
    → IsDriven deadtime x
    → Follows deadtime m s
    → (m' : Monitor) × (observe deadtime m s ≡ ok m') × Follows deadtime m' (clock x s)
unfolding observe clock
observe-Follows deadtime m s x d f = (
  record {
    prev_pol = s.polarity;
    bridge_low_for = if s.bridge_en then 0 else m.bridge_low_for + 1;
  },
  ground arith,
  record { fits = clock-Fits x s f.fits; waited = ground arith; turned = ground arith },
)

watch-Follows :
    (deadtime : ℕ) (m : Monitor) (s : Fsm) (xs : List Inputs)
    → All (IsDriven deadtime) xs
    → Follows deadtime m s
    → (m' : Monitor) × (watch deadtime m s xs ≡ ok m')
unfolding watch
watch-Follows deadtime m s [] d f = (m, refl)
watch-Follows deadtime m s (x ∷ xs) (d, ds) f =
    let (m', passed, next) = observe-Follows deadtime m s x d f in
    let (last, rest) = watch-Follows deadtime m' (clock x s) xs ds next in (last, rw passed rest)

-- Whatever the inputs do after a reset, with the dead time held at the monitor's, no assertion of
-- the monitor fails: the polarity changes only with the bridge open, and open for the dead time,
-- and the bridge is open in DISABLE and in FLIP.
pub watch_passes :
    (deadtime : ℕ) (xs : List Inputs)
    → All (IsDriven deadtime) xs
    → (m : Monitor) × (watch deadtime (start reset_fsm) reset_fsm xs ≡ ok m)
unfolding start
watch_passes deadtime xs d =
    watch-Follows deadtime (start reset_fsm) reset_fsm xs d
      (record { fits = reset-Fits; waited = ground arith; turned = inl refl })
