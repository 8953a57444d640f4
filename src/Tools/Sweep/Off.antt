-- ===== src/Tools/Sweep/Off.antt =====
-- However the sweep ends, the servo is off; and what both driving tools leave when the board is not
-- armed.
use Prim.Native.String.{String}
use coil_servo.Base.{
  ℕ, ◌≡◌, refl, ap, ◌∙◌, arith, Bool, true, false, Option, some, none, List, [], All, Result, ok,
  err, Error, unless_interrupted,
}
use coil_servo.Base.Int.{ℤ, pos, neg}
use coil_servo.Base.Dict.{lookup, IsDistinct}
use coil_servo.Registers.Parse.{item}
use coil_servo.Registers.{cfg_fields}
use coil_servo.Registers.Encode.{low_bits, lo, hi}
use coil_servo.Registers.Updates.{IsKnown}
use coil_servo.Board.{exceeds_clamp}
use coil_servo.Board.Stage.{IsAllowed}
use coil_servo.Board.Sets.{write_cfg_sets}
use coil_servo.Floats.{Floats}
use coil_servo.Bench.{Bench}
use coil_servo.Tools.Script.{from_result, bind_ok, bind_err}
use coil_servo.Tools.Methods.{Host, Status, Warning, entry_of, set_cfg, configured, warn_flags}
use coil_servo.Tools.Step.{step_body, step_start}
use coil_servo.Tools.Drive.{start_drive}
use coil_servo.Tools.Drive.Ends.{
  IsOff, Enabled, drive_off-IsOff, bit_of_control, enable_found, open_loop_found, bit_known,
}
use coil_servo.Tools.Transfer.{Numpy}
use coil_servo.Tools.Sweep.{sweep_loop, sweep_drive, sweep_body, sweep_start}

module _ (R : Floats) (N : Numpy R) (W : Bench) where
  open R use {Float}

  -- Over a link on which every write to the block goes through, that of the `finally` too: however the
  -- loop of the sweep ends, by Ctrl-C or by an exception anywhere in a round, the rows are those of the
  -- loop, Ctrl-C alone is not an error, and `servo_enable` and `open_loop` are 0 in
  -- the shadow and on the board.
  pub sweep_drive-IsOff :
      (rounds : ℕ) (scale min_stim : Float) (b : Host W)
      → let (r, rows, b') = sweep_loop R N W rounds scale min_stim none [] b in
        ((sweep_drive R N W rounds scale min_stim b).0 ≡ unless_interrupted r)
        × ((sweep_drive R N W rounds scale min_stim b).1 ≡ rows)
        × IsOff W (sweep_drive R N W rounds scale min_stim b).2
  unfolding sweep_drive
  sweep_drive-IsOff rounds scale min_stim b =
      let ended = sweep_loop R N W rounds scale min_stim none [] b in
      let off = drive_off-IsOff W ended.2 in
      (
        ap (λ (q : Result (Unit {0})). elim q [ err e ↦ err e | ok u ↦ unless_interrupted ended.0 ])
            off.0,
        refl,
        off.1,
      )

module _ (W : Bench) where
  -- `start_drive` on a board that says, after the servo was enabled, that it is not armed.
  start_drive_refuses :
      (cfg start : List (String × ℤ)) (b b1 : Host W) (s : Status) (ws : List Warning)
      → IsDistinct start
      → All IsKnown start
      → All (IsAllowed b1.max_clamp) start
      → lookup "servo_enable" start ≡ some (pos 1)
      → configured W cfg b ≡ (ok tt, b1)
      → warn_flags W (set_cfg W start b1).1 ≡ (ok (s, ws), (set_cfg W start b1).1)
      → item "armed" s.0 ≡ ok (pos 0)
      → (start_drive W cfg start b ≡ (err Error.system_exit, (set_cfg W start b1).1))
        × Enabled W 1 (set_cfg W start b1).1
  unfolding start_drive set_cfg from_result low_bits
  start_drive_refuses cfg start b b1 s ws distinct known allowed enabled written warned unarmed =
      let b2 = (set_cfg W start b1).1 in
      let held =
        write_cfg_sets b1.max_clamp "servo_enable" (bit_of_control 0) enable_found (pos 1) W.link b1
          start refl distinct known allowed enabled in
      (
        bind_ok (configured W cfg) _ b b1 tt written
            ∙ bind_ok (set_cfg W start) _ b1 b2 tt (λ i. (held.0 i, b2))
            ∙ bind_ok (warn_flags W) _ b2 b2 (s, ws) warned
            ∙ bind_ok (entry_of "armed" s) _ b2 b2 (pos 0) (λ i. (unarmed i, b2)),
        held.1,
      )

  setpoint_known : IsKnown ("setpoint", pos 0)
  unfolding cfg_fields lo hi neg
  setpoint_known = record {
    in_field = record { word = 1; lsb = 0; width = 14; signed = true };
    found = refl;
    fits = omega arith;
  }

  source_found : lookup "sp_source" cfg_fields ≡ some (bit_of_control 2)
  unfolding cfg_fields
  source_found = refl

  start-IsAllowed :
      (limit : Option ℤ) (open_loop : Bool)
      → All (IsAllowed limit) (step_start open_loop) × All (IsAllowed limit) sweep_start
  unfolding exceeds_clamp
  start-IsAllowed none true = ((refl, (refl, (refl, (refl, tt)))), (refl, (refl, (refl, tt))))
  start-IsAllowed none false = ((refl, (refl, (refl, (refl, tt)))), (refl, (refl, (refl, tt))))
  start-IsAllowed (some l) true = ((refl, (refl, (refl, (refl, tt)))), (refl, (refl, (refl, tt))))
  start-IsAllowed (some l) false = ((refl, (refl, (refl, (refl, tt)))), (refl, (refl, (refl, tt))))

  step_start-IsKnown : (open_loop : Bool) → All IsKnown (step_start open_loop)
  step_start-IsKnown true = (
    bit_known "sp_source" 2 true source_found,
    (
      setpoint_known,
      (
        bit_known "open_loop" 16 true open_loop_found,
        (bit_known "servo_enable" 0 true enable_found, tt),
      ),
    ),
  )
  step_start-IsKnown false = (
    bit_known "sp_source" 2 true source_found,
    (
      setpoint_known,
      (
        bit_known "open_loop" 16 false open_loop_found,
        (bit_known "servo_enable" 0 true enable_found, tt),
      ),
    ),
  )

  sweep_start-IsKnown : All IsKnown sweep_start
  sweep_start-IsKnown = (
    bit_known "sp_source" 2 false source_found,
    (
      bit_known "open_loop" 16 true open_loop_found,
      (bit_known "servo_enable" 0 true enable_found, tt),
    ),
  )

  -- The step measurement once the configuration is written, on a board that reports that it is not
  -- armed: it exits, and leaves the servo enabled in the shadow and on the board.
  pub step_unarmed :
      (cfg : List (String × ℤ)) (open_loop : Bool) (sp : ℤ) (b b1 : Host W) (s : Status)
      (ws : List Warning)
      → let b2 = (set_cfg W (step_start open_loop) b1).1 in
        configured W cfg b ≡ (ok tt, b1)
        → warn_flags W b2 ≡ (ok (s, ws), b2)
        → item "armed" s.0 ≡ ok (pos 0)
        → (step_body W cfg open_loop sp b ≡ (err Error.system_exit, b2)) × Enabled W 1 b2
  unfolding step_body
  step_unarmed cfg open_loop sp b b1 s ws written warned unarmed =
      let b2 = (set_cfg W (step_start open_loop) b1).1 in
      let (refused, held) =
        start_drive_refuses cfg (step_start open_loop) b b1 s ws (refl, (refl, (refl, (refl, tt))))
          (step_start-IsKnown open_loop) (start-IsAllowed b1.max_clamp open_loop).0 refl written
          warned unarmed in
      (bind_err (start_drive W cfg (step_start open_loop)) _ b b2 Error.system_exit refused, held)

  -- The sweep once the configuration is written, on a board that reports that it is not armed: it
  -- exits before the `try` whose `finally` would disable the servo, and leaves the servo enabled in
  -- the shadow and on the board.
  pub sweep_unarmed :
      (R : Floats) (N : Numpy R) (rounds : ℕ) (scale min_stim : R.Float) (cfg : List (String × ℤ))
      (b b1 : Host W) (s : Status) (ws : List Warning)
      → let b2 = (set_cfg W sweep_start b1).1 in
        configured W cfg b ≡ (ok tt, b1)
        → warn_flags W b2 ≡ (ok (s, ws), b2)
        → item "armed" s.0 ≡ ok (pos 0)
        → (sweep_body R N W rounds scale min_stim cfg b ≡ (err Error.system_exit, b2))
          × Enabled W 1 b2
  unfolding sweep_body
  sweep_unarmed R N rounds scale min_stim cfg b b1 s ws written warned unarmed =
      let b2 = (set_cfg W sweep_start b1).1 in
      let (refused, held) =
        start_drive_refuses cfg sweep_start b b1 s ws (refl, (refl, (refl, tt))) sweep_start-IsKnown
          (start-IsAllowed b1.max_clamp true).1 refl written warned unarmed in
      (bind_err (start_drive W cfg sweep_start) _ b b2 Error.system_exit refused, held)
