-- ===== src/Tools/Methods.antt =====
-- `warn_flags`, `pop_words` and `capture` of the class `Board`.
use Prim.Native.String.{String}
use coil_servo.Base.{
  ℕ, zero, suc, ◌+◌, ◌-◌, Bool, true, false, not, if◌then◌else◌, ltb, Option, none, some, List, [],
  ◌∷◌, ◌++◌, Result, ok, err, Error,
}
use coil_servo.Base.Int.{ℤ, pos, eqb_ℤ, leb_ℤ}
use coil_servo.Registers.Parse.{item}
use coil_servo.Board.{Board, write_cfg, apply_config, pulse, sts}
use coil_servo.Capture.{unpack}
use coil_servo.Bench.{Bench}
use coil_servo.Tools.Script.{Script, ◌>>=◌, pure, from_result, reading}

-- What `sts` gives: the fields, and the name of the state.
abbrev pub Status : Type 0
Status = List (String × ℤ) × String

-- `s[key]`, and its truth value.
abbrev pub entry_of : {S : Type 0} → String → Status → Script S ℤ
entry_of key s = from_result (item key s.0)

abbrev pub is_set : ℤ → Bool
is_set v = not (eqb_ℤ v (pos 0))

-- The warnings that `warn_flags` prints.
pub data Warning : Type 0 where
  fault_flag sign_disagrees : Warning

abbrev pub warn_if : ℤ → Warning → List Warning
warn_if v w = if is_set v then w ∷ [] else []

abbrev pub fifo_addr : ℕ
fifo_addr = 0x4200_0000

abbrev pub fifo_depth : ℕ
fifo_depth = 16384

-- What the `else` of the `while` of `capture` raises: its message names `count`.
abbrev pub late_error : Option ℤ → Error
late_error none = Error.unbound_local_error
late_error (some count) = Error.timeout_error

module _ (W : Bench) where
  open W.link use {Memory}

  -- The object on the memory of the bench.
  abbrev pub Host : Type 0
  Host = Board Memory

  unfoldable pub get_sts : Script Host Status
  get_sts = reading (sts W.link.wire)

  unfoldable pub set_cfg : List (String × ℤ) → Script Host (Unit {0})
  set_cfg fields b = write_cfg W.link.wire b fields

  unfoldable pub configured : List (String × ℤ) → Script Host (Unit {0})
  configured fields b = apply_config W.link.wire b fields

  unfoldable pub pulsed : String → Script Host (Unit {0})
  pulsed name b = pulse W.link.wire b name

  unfoldable pub wait : ℕ → Script Host (Unit {0})
  wait d b = let (r, m) = W.sleep d b.memory in (r, record b { memory = m })

  unfoldable pub popped : ℕ → ℕ → Script Host (List ℕ)
  popped addr count b = let (r, m) = W.pop_words b.memory addr count in (r, record b { memory = m })

  -- `Board.warn_flags`, with what it prints.
  unfoldable pub warn_flags : Script Host (Status × List Warning)
  unfolding get_sts
  warn_flags = do
    s ← get_sts
    fault ← entry_of "fault" s
    mismatch ← entry_of "sp_sign_mismatch" s
    pure (s, warn_if fault fault_flag ++ warn_if mismatch sign_disagrees)

  unfoldable pub fifo_count : Host → Result ℤ
  fifo_count b = elim (sts W.link.wire b) [ err e ↦ err e | ok s ↦ item "fifo_count" s.0 ]

  -- The `while` of `capture`: its outcome, or nothing when the fuel is too little. `seen` is the local
  -- `count`, which no round has set yet when it is `none`.
  unfoldable pub poll : ℕ → ℕ → Option ℤ → Host → Option (Result (Unit {0}) × Host)
  unfolding fifo_count wait
  poll zero deadline seen b = none
  poll (suc fuel) deadline seen b = elim (ltb (W.now b.memory) deadline) [
    | false ↦ some (err (late_error seen), b)
    | true ↦ elim (fifo_count b) [
      | err e ↦ some (err e, b)
      | ok count ↦ elim (leb_ℤ (pos fifo_depth) count) [
        | true ↦ some (ok tt, b)
        | false ↦
            let (r, b') = wait 2000 b in
            elim r [ err e ↦ some (err e, b') | ok u ↦ poll fuel deadline (some count) b' ]
      ]
    ]
  ]

  -- With fuel for every microsecond to the deadline.
  unfoldable pub await_fill : ℕ → Script Host (Unit {0})
  unfolding poll
  await_fill deadline b = elim (poll (suc (deadline - W.now b.memory)) deadline none b) [
    | none ↦ (err Error.timeout_error, b)
    | some out ↦ out
  ]

  -- `Board.capture`.
  unfoldable pub capture : Bool → ℕ → Script Host (List (ℤ × ℤ))
  unfolding set_cfg pulsed await_fill popped
  capture decimated timeout = do
    u ← set_cfg (("capture_sel", pos (if decimated then 1 else 0)) ∷ [])
    u ← pulsed "fifo_rst"
    start ← reading λ b. ok (W.now b.memory)
    u ← await_fill (start + timeout + (if decimated then 20000 else 1000))
    raw ← popped fifo_addr fifo_depth
    pure (unpack decimated raw)
