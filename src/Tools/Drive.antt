-- ===== src/Tools/Drive.antt =====
-- What step.py and sweep.py of host/coil_servo_host share: the start of the drive, with the check
-- that the board is armed, and its end.
pub mod Ends
use Prim.Native.String.{String}
use coil_servo.Base.{Bool, List, [], ◌∷◌, guard, Error, ok}
use coil_servo.Base.Int.{ℤ, pos}
use coil_servo.Bench.{Bench}
use coil_servo.Tools.Script.{Script, ◌>>=◌, from_result}
use coil_servo.Tools.Methods.{Host, entry_of, is_set, set_cfg, configured, warn_flags}

-- `b.write_cfg(servo_enable=0, open_loop=0)`.
abbrev pub drive_off : List (String × ℤ)
drive_off = ("servo_enable", pos 0) ∷ ("open_loop", pos 0) ∷ []

module _ (W : Bench) where
  -- `apply_config`, the `write_cfg` that enables the servo, `warn_flags`, and the exit when the board
  -- is not armed.
  unfoldable pub start_drive : List (String × ℤ) → List (String × ℤ) → Script (Host W) (Unit {0})
  start_drive cfg start = do
    u ← configured W cfg
    u ← set_cfg W start
    warned ← warn_flags W
    armed ← entry_of "armed" warned.0
    from_result (guard (is_set armed) Error.system_exit)
