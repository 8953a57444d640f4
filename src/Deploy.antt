-- ===== src/Deploy.antt =====
-- `refuse_if_running` of host/coil_servo_host/deploy.py: whether a bitstream may be loaded. Deploy.Commands
-- has the rest of the file.
pub mod Commands
use coil_servo.Base.{
  ℕ, ◌*◌, ◌/◌, ◌<◌, ◌≡◌, refl, ap, ◌∙◌, arith, Bool, true, false, not, ◌||◌, if◌then◌else◌, leb,
  some, List, Result, ok, err, Error, ◌>>=◌,
}
use Prim.Native.String.{String}
use coil_servo.Base.Dict.{lookup}
use coil_servo.Base.Int.{ℤ, pos, abs_ℤ, eqb_ℤ, eq_of_parts}
use coil_servo.Registers.Parse.{item, item_found}
use coil_servo.Link.{Link}
use coil_servo.Board.{Board, sts}

-- `I_QUIET_COUNTS`.
abbrev pub i_quiet_counts : ℕ
i_quiet_counts = 64

-- The exceptions that `except OSError` catches.
abbrev pub is_os_error : Error → Bool
is_os_error Error.connection_error = true
is_os_error Error.io_error = true
is_os_error Error.timeout_error = true
is_os_error Error.assertion_error = false
is_os_error Error.value_error = false
is_os_error Error.system_exit = false
is_os_error Error.key_error = false
is_os_error Error.index_error = false
is_os_error Error.struct_error = false
is_os_error Error.overflow_error = false
is_os_error Error.keyboard_interrupt = false
is_os_error Error.process_error = false
is_os_error Error.zero_division_error = false
is_os_error Error.unbound_local_error = false

-- `if force: return`, and the exit otherwise.
abbrev pub unless_forced : Bool → Result (Unit {0})
unless_forced force = if force then ok tt else err Error.system_exit

-- What is made of the status.
unfoldable pub judge : Bool → Result (List (String × ℤ) × String) → Result (Unit {0})
judge force (err e) = if is_os_error e then unless_forced force else err e
judge force (ok (s, name)) = item "i_meas" s >>= λ i_meas.
    let quiet = leb (abs_ℤ i_meas / 128) i_quiet_counts in
    item "bridge_en" s >>= λ bridge_en.
    if not (eqb_ℤ bridge_en (pos 0)) || not quiet then unless_forced force else ok tt

-- The bridge is off and the current is small either way.
abbrev pub IsQuiet : ℤ → ℤ → Type 0
IsQuiet i b = (b ≡ pos 0) × (abs_ℤ i < 65 * 128)

verdict :
    (i b : ℤ)
    → let out =
        if not (eqb_ℤ b (pos 0)) || not (leb (abs_ℤ i / 128) i_quiet_counts)
        then unless_forced false
        else ok tt in
      (IsQuiet i b → out ≡ ok tt) × (¬ IsQuiet i b → out ≡ err Error.system_exit)
verdict i b = ground (arith, eq_of_parts b (pos 0))

module _ (L : Link) where
  open L use {Memory}

  -- `refuse_if_running`, from what `Board(host, port=port, timeout=2.0)` gave.
  unfoldable pub refuse_if_running : Result (Board Memory) → Bool → Result (Unit {0})
  unfolding judge
  refuse_if_running (err e) force = if is_os_error e then ok tt else err e
  refuse_if_running (ok b) force = judge force (sts L.wire b)

  judge_known :
      (force : Bool) (s : List (String × ℤ)) (name : String) (i b : ℤ)
      → lookup "i_meas" s ≡ some i
      → lookup "bridge_en" s ≡ some b
      → judge force (ok (s, name)) ≡ (
          if not (eqb_ℤ b (pos 0)) || not (leb (abs_ℤ i / 128) i_quiet_counts)
          then unless_forced force
          else ok tt)
  unfolding judge
  judge_known force s name i b hi hb =
      rw (item_found "i_meas" s i hi, item_found "bridge_en" s b hb) refl

  -- A server answers with a status that has the two values. Without force a load is let through
  -- exactly when the bridge is off and the measured current is below 65 counts of 128 either way;
  -- what is not let through ends the program.
  pub refuse_if_running-IsQuiet :
      (board : Board Memory) (s : List (String × ℤ)) (name : String) (i b : ℤ)
      → sts L.wire board ≡ ok (s, name)
      → lookup "i_meas" s ≡ some i
      → lookup "bridge_en" s ≡ some b
      → (IsQuiet i b → refuse_if_running (ok board) false ≡ ok tt)
        × (¬ IsQuiet i b → refuse_if_running (ok board) false ≡ err Error.system_exit)
  unfolding refuse_if_running
  refuse_if_running-IsQuiet board s name i b ran hi hb =
      let out = ap (judge false) ran ∙ judge_known false s name i b hi hb in
      (λ quiet. out ∙ (verdict i b).0 quiet, λ busy. out ∙ (verdict i b).1 busy)
