-- ===== src/Tools/Drive/Ends.antt =====
-- How the tools that drive the coil leave the board.
use Prim.Native.String.{String}
use coil_servo.Base.{ℕ, ◌≡◌, refl, arith, Bool, true, false, Option, some, none, List, All, ok}
use coil_servo.Base.Int.{ℤ, pos, neg}
use coil_servo.Base.Dict.{lookup}
use coil_servo.Registers.{Field, cfg_fields}
use coil_servo.Registers.Encode.{lo, hi, low_bits}
use coil_servo.Registers.Updates.{IsKnown}
use coil_servo.Board.{exceeds_clamp}
use coil_servo.Board.Stage.{IsAllowed}
use coil_servo.Board.Keeps.{IsHeld}
use coil_servo.Board.Sets.{write_cfg_sets}
use coil_servo.Bench.{Bench}
use coil_servo.Tools.Script.{Keeps-from_result, Ends, Ends-bind, Ends-last}
use coil_servo.Tools.Methods.{Host, set_cfg}
use coil_servo.Tools.Step.{record_step, step_body}
use coil_servo.Tools.Drive.{drive_off}

-- A field of one bit in word 0.
abbrev pub bit_of_control : ℕ → Field
bit_of_control lsb = record { word = 0; lsb = lsb; width = 1; signed = false }

pub enable_found : lookup "servo_enable" cfg_fields ≡ some (bit_of_control 0)
unfolding cfg_fields
enable_found = refl

pub open_loop_found : lookup "open_loop" cfg_fields ≡ some (bit_of_control 16)
unfolding cfg_fields
open_loop_found = refl

abbrev pub is_bit : Bool → ℤ
is_bit true = pos 1
is_bit false = pos 0

pub bit_known :
    (name : String) (lsb : ℕ) (b : Bool)
    → lookup name cfg_fields ≡ some (bit_of_control lsb)
    → IsKnown (name, is_bit b)
unfolding lo hi neg
bit_known name lsb true h = record { in_field = bit_of_control lsb; found = h; fits = omega arith }
bit_known name lsb false h = record { in_field = bit_of_control lsb; found = h; fits = omega arith }

drive_off-IsKnown : All IsKnown drive_off
drive_off-IsKnown = (
  bit_known "servo_enable" 0 false enable_found,
  (bit_known "open_loop" 16 false open_loop_found, tt),
)

drive_off-IsAllowed : (limit : Option ℤ) → All (IsAllowed limit) drive_off
unfolding exceeds_clamp
drive_off-IsAllowed none = (refl, (refl, tt))
drive_off-IsAllowed (some l) = (refl, (refl, tt))

module _ (W : Bench) where
  -- The one-bit field holds `v`, in the shadow and on the board.
  abbrev pub Enabled : ℕ → Host W → Type 0
  Enabled v = IsHeld "servo_enable" (bit_of_control 0) enable_found v W.link

  abbrev pub OpenLoop : ℕ → Host W → Type 0
  OpenLoop v = IsHeld "open_loop" (bit_of_control 16) open_loop_found v W.link

  -- The servo is off and the loop closed.
  abbrev pub IsOff : Host W → Type 0
  IsOff b = Enabled 0 b × OpenLoop 0 b

  pub drive_off-IsOff :
      (b : Host W) → ((set_cfg W drive_off b).0 ≡ ok tt) × IsOff (set_cfg W drive_off b).1
  unfolding set_cfg low_bits
  drive_off-IsOff b =
      let enable =
        write_cfg_sets b.max_clamp "servo_enable" (bit_of_control 0) enable_found (pos 0) W.link b
          drive_off refl (refl, (refl, tt)) drive_off-IsKnown (drive_off-IsAllowed b.max_clamp)
          refl in
      let loop =
        write_cfg_sets b.max_clamp "open_loop" (bit_of_control 16) open_loop_found (pos 0) W.link b
          drive_off refl (refl, (refl, tt)) drive_off-IsKnown (drive_off-IsAllowed b.max_clamp)
          refl in
      (enable.0, (enable.1, loop.1))

  record_step-Ends : (sp : ℤ) → Ends IsOff (record_step W sp)
  unfolding record_step
  record_step-Ends sp = Ends-bind _ _ λ u. Ends-bind _ _ λ u. Ends-bind _ _ λ u. Ends-bind _ _ λ u.
      Ends-bind _ _ λ u. Ends-bind _ _ λ u. Ends-bind _ _ λ raw.
        Ends-bind _ _ λ u.
          Ends-bind _ _ λ u. Ends-last _ _ (λ b. (drive_off-IsOff b).1) λ u. Keeps-from_result _

  step_body-Ends :
      (cfg : List (String × ℤ)) (open_loop : Bool) (sp : ℤ)
      → Ends IsOff (step_body W cfg open_loop sp)
  unfolding step_body
  step_body-Ends cfg open_loop sp = Ends-bind _ _ λ u. record_step-Ends sp
